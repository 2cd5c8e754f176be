-- ===== src/Serial/Sending.antt =====
-- The loop of `send` ends, and what is on the wire then.
use mathlib.Core.List.{append-nil, append_assoc}
use goatos.Base.{
  ℕ, zero, suc, ◌+◌, ◌-◌, ◌*◌, ◌≤◌, ◌≡◌, ◌⊎◌, inl, inr, refl, ap, ap₂, subst, ◌∙◌, Option, some,
  List, [], ◌∷◌, ◌++◌, ltb, length, take, drop, arith, Bool-cases,
}
use goatos.Serial.{
  Ready, ready, no_capacity, remote_not_clear_to_send, Uart, transmit_spin_limit, send_loop, send,
}

-- What the library documents, of a driver whose bytes sent so far are `wire`: asking whether it is ready
-- sends nothing, `send_bytes` sends the first bytes, as many as it says, and a write to the port sends
-- that byte where the driver has just answered that only the other side is not clear to send, which
-- says that the holding register is empty. Nothing is said of a write in another state.
pub record IsUart {ℓ} {S : Type ℓ} (uart : Uart S) (wire : S → List ℕ) : Type ℓ where
  pub asks : (s : S) → wire (uart.ready_to_send s).1 ≡ wire s
  pub takes : (s : S) (bytes : List ℕ) → (uart.send_bytes s bytes).0 ≤ length bytes
  pub sends :
      (s : S) (bytes : List ℕ)
      → wire (uart.send_bytes s bytes).1 ≡ wire s ++ take (uart.send_bytes s bytes).0 bytes
  pub writes :
      (s : S) (byte : ℕ)
      → (uart.ready_to_send s).0 ≡ remote_not_clear_to_send
      → (let s' = (uart.ready_to_send s).1 in wire (uart.outb s' byte) ≡ wire s' ++ (byte ∷ []))

module _ {ℓ} {A : Type ℓ} where
  take-drop : (n : ℕ) (xs : List A) → take n xs ++ drop n xs ≡ xs
  take-drop zero xs = refl
  take-drop (suc n) [] = refl
  take-drop (suc n) (x ∷ xs) = ap (λ ys. x ∷ ys) (take-drop n xs)

  length-drop : (n : ℕ) (xs : List A) → length (drop n xs) ≤ length xs
  length-drop zero xs = omega arith
  length-drop (suc n) [] = omega arith
  length-drop (suc n) (x ∷ xs) = omega (arith, length-drop n xs)

Ready-cases : (r : Ready) → (r ≡ ready) ⊎ (r ≡ no_capacity) ⊎ (r ≡ remote_not_clear_to_send)
Ready-cases ready = inl refl
Ready-cases no_capacity = inr (inl refl)
Ready-cases remote_not_clear_to_send = inr (inr refl)

zero_or_suc : (n : ℕ) → (n ≡ 0) ⊎ ((m : ℕ) × (n ≡ suc m))
zero_or_suc zero = inl refl
zero_or_suc (suc m) = inr (m, refl)

-- The rounds that are enough, after `spins` polls in a row without room.
abbrev pub budget : List ℕ → ℕ → ℕ
budget remaining spins =
    length remaining * (transmit_spin_limit + 2) + (transmit_spin_limit + 1 - spins) + 1

-- It ended; what was sent and what remains make up the text.
abbrev pub Ended {ℓ} : {S : Type ℓ} → (S → List ℕ) → S → List ℕ → Option (List ℕ × S) → Type ℓ
Ended wire s bytes result =
    (rest : List ℕ) × (s' : _) × (result ≡ some (rest, s')) × (wire s' ++ rest ≡ wire s ++ bytes)

-- What the round after one that sent `front` ends with, this one does.
Ended-front {ℓ} :
    {S : Type ℓ} (wire : S → List ℕ) (s t : S) (front bytes : List ℕ) (result : Option (List ℕ × S))
    → wire t ≡ wire s ++ front
    → Ended wire t bytes result
    → Ended wire s (front ++ bytes) result
Ended-front wire s t front bytes result e (rest, s', r, w) =
    (rest, s', r, w ∙ ap (λ l. l ++ bytes) e ∙ append_assoc (wire s) front bytes)

module _ {ℓ} {S : Type ℓ} (uart : Uart S) (wire : S → List ℕ) (good : IsUart uart wire) where
  send_loop-Ended :
      (fuel : ℕ) (s : S) (remaining : List ℕ) (spins : ℕ)
      → spins ≤ transmit_spin_limit
      → budget remaining spins ≤ fuel
      → Ended wire s remaining (send_loop uart fuel s remaining spins)
  unfolding send_loop
  send_loop-Ended zero s remaining spins le enough = absurd (omega arith)
  send_loop-Ended (suc fuel) s [] spins le enough = ([], s, refl, refl)
  send_loop-Ended (suc fuel) s (byte ∷ bytes) spins le enough =
      let s' = (uart.ready_to_send s).1 in
      let taken = uart.send_bytes s' (byte ∷ bytes) in
      elim (Ready-cases (uart.ready_to_send s).0) [
        | inl e ↦ elim (zero_or_suc taken.0) [
          | inl z ↦
              rw (e, z, send_loop)
                (
                  byte ∷ bytes,
                  taken.1,
                  refl,
                  ap (λ w. w ++ (byte ∷ bytes))
                      (good.sends s' (byte ∷ bytes)
                        ∙ ap (λ n. wire s' ++ take n (byte ∷ bytes)) z
                        ∙ append-nil (wire s')
                        ∙ good.asks s),
                )
          | inr (sent, z) ↦
              let later =
                send_loop-Ended fuel taken.1 (drop sent bytes) 0 (omega arith)
                  (omega (arith, enough, le, length-drop sent bytes)) in
              let wired : wire taken.1 ≡ wire s ++ take (suc sent) (byte ∷ bytes) =
                good.sends s' (byte ∷ bytes)
                ∙ ap₂ (λ w n. w ++ take n (byte ∷ bytes)) (good.asks s) z in
              rw (e, z, send_loop)
                (subst (λ l. Ended wire s l (send_loop uart fuel taken.1 (drop sent bytes) 0))
                  (take-drop (suc sent) (byte ∷ bytes))
                  (Ended-front wire s taken.1 (take (suc sent) (byte ∷ bytes)) (drop sent bytes)
                    (send_loop uart fuel taken.1 (drop sent bytes) 0) wired later))
        ]
        | inr (inl e) ↦ elim (Bool-cases (ltb transmit_spin_limit (spins + 1))) [
          | inl l ↦
              rw (e, l, send_loop)
                (byte ∷ bytes, s', refl, ap (λ w. w ++ (byte ∷ bytes)) (good.asks s))
          | inr l ↦
              let few : spins + 1 ≤ transmit_spin_limit = ground (arith, l) in
              let (rest, t, r, w) =
                send_loop-Ended fuel s' (byte ∷ bytes) (spins + 1) few
                  (omega (arith, enough, few)) in
              rw (e, l, send_loop) (rest, t, r, w ∙ ap (λ w. w ++ (byte ∷ bytes)) (good.asks s))
        ]
        | inr (inr e) ↦
            rw (e, send_loop)
              (Ended-front wire s (uart.outb s' byte) (byte ∷ []) bytes
                (send_loop uart fuel (uart.outb s' byte) bytes 0)
                (good.writes s byte e ∙ ap (λ w. w ++ (byte ∷ [])) (good.asks s))
                (send_loop-Ended fuel (uart.outb s' byte) bytes 0 (omega arith)
                  (omega (arith, enough, le))))
      ]

  -- With a driver as documented, and whatever it answers when: `send` comes to its end, within a number
  -- of rounds that depends on the length of the text alone, and what it has sent is the text from its
  -- start, in order and each byte once, up to the bytes that remain.
  pub send-Ended :
      (fuel : ℕ) (s : S) (bytes : List ℕ)
      → budget bytes 0 ≤ fuel
      → Ended wire s bytes (send uart fuel s bytes)
  unfolding send
  send-Ended fuel s bytes enough = send_loop-Ended fuel s bytes 0 (omega arith) enough
