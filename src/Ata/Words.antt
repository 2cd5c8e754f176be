-- ===== src/Ata/Words.antt =====
-- The words of a sector: where they come from, and the bytes that they fill the buffer with.
use goatos.Base.{
  ℕ, zero, suc, ◌+◌, ◌/◌, ◌%◌, ◌^◌, ◌≡◌, refl, sym, ap, ap₂, ◌∙◌, List, [], ◌∷◌, ◌++◌, ◌==◌,
  if◌then◌else◌, length, drop, arith,
}
use mathlib.Core.List.{append-nil, append_assoc}
use goatos.Ata.Handshake.{taken}
use goatos.Ata.{wrote, got, Trace, Bus, data_port, inw, read_words}

-- The writes of a trace, latest first.
unfoldable pub writes : Trace → List (ℕ × ℕ)
writes [] = []
writes (wrote port value ∷ t) = (port, value) ∷ writes t
writes (got port value ∷ t) = writes t

-- The words that came from the data port, in order.
unfoldable pub received : Trace → List ℕ
received [] = []
received (wrote port value ∷ t) = received t
received (got port value ∷ t) = if port == data_port then received t ++ (value ∷ []) else received t

unfoldable pub little_endian : List ℕ → List ℕ
little_endian [] = []
little_endian (w ∷ ws) = w % 2 ^ 8 ∷ w / 2 ^ 8 ∷ little_endian ws

module _ {ℓ} {A : Type ℓ} where
  pub drop_at : (m n : ℕ) (xs : List A) → m ≡ n → drop m xs ≡ drop n xs
  drop_at m n xs e = ap (λ k. drop k xs) e

  drop_nil : (n : ℕ) → ◌≡◌ {A = List A} (drop n []) []
  drop_nil zero = refl
  drop_nil (suc n) = refl

  pub drop-drop : (m n : ℕ) (xs : List A) → drop n (drop m xs) ≡ drop (m + n) xs
  drop-drop zero n xs = drop_at n (0 + n) xs (omega arith)
  drop-drop (suc m) n [] = drop_nil n ∙ sym (drop_nil (suc m + n))
  drop-drop (suc m) n (x ∷ xs) =
      drop-drop m n xs ∙ drop_at (suc (m + n)) (suc m + n) (x ∷ xs) (omega arith)

pub little_endian-append :
    (v w : List ℕ) → little_endian (v ++ w) ≡ little_endian v ++ little_endian w
unfolding little_endian
little_endian-append [] w = refl
little_endian-append (x ∷ v) w = ap (λ ys. x % 2 ^ 8 ∷ x / 2 ^ 8 ∷ ys) (little_endian-append v w)

module _ (bus : Bus) where
  -- A sector's words come from the data port one after the other.
  pub read_words_lem :
      (left : ℕ) (t : Trace)
      → (words : List ℕ) × (length words ≡ left)
        × (received (read_words bus left t).1 ≡ received t ++ words)
        × ((read_words bus left t).0 ≡ little_endian words)
        × (writes (read_words bus left t).1 ≡ writes t)
        × ((read_words bus left t).1 ≡ taken words t)
  unfolding read_words inw writes received little_endian taken
  read_words_lem zero t = ([], refl, sym (append-nil (received t)), refl, refl, refl)
  read_words_lem (suc left) t =
      let w = bus t data_port % 2 ^ 16 in
      let (words, count, r, b, q, order) = read_words_lem left (inw bus t data_port).1 in
      (
        w ∷ words,
        ap suc count,
        r ∙ append_assoc (received t) (w ∷ []) words,
        ap₂ (λ hi rest. w % 2 ^ 8 ∷ hi ∷ rest) (omega arith) b,
        q,
        order,
      )
