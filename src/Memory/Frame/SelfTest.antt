-- ===== src/Memory/Frame/SelfTest.antt =====
-- The boot-time self-test of the frame allocator, `self_test` of kernel/src/memory/frame.rs: eight frames
-- are taken and checked, two given back, one taken again, a double free tried, and all given back. A
-- frame is its index; the arrays with a count are lists.
pub mod Lists
pub mod Rounds
pub mod Passed
mod Tests
use goatos.Base.{
  ℕ, zero, suc, ◌+◌, ◌-◌, Bool, true, false, not, Option, none, some, List, [], ◌∷◌, ◌++◌, ◌==◌,
  if◌then◌else◌, length, get_or,
}
use goatos.Memory.Ram.{Ram}
use goatos.Memory.Frame.{FrameAllocator, FreeError, already_free, region_of, is_reserved}
use goatos.Memory.Frame.Ops.{FreeResult, freed, refused, is_none, allocate, free}
use goatos.Memory.Frame.Chain.{member}

abbrev pub self_test_frames : ℕ
self_test_frames = 8

-- The reasons that the test can fail for.
pub data Failure : Type 0 where
  ran_out outside_usable_ram reserved_frame same_frame_twice refused_to_take_back : Failure
  did_not_reuse nothing_to_allocate accepted_double_free frames_went_missing : Failure

pub record SelfTest : Type 0 where
  pub frames : List ℕ
  pub given : List ℕ
  pub reused : Option ℕ
  pub failure : Option Failure

-- The first reason stays.
unfoldable pub fail : SelfTest → Failure → SelfTest
fail t reason = elim t.failure [ none ↦ record t { failure = some reason } | some r ↦ t ]

-- The loop that takes frames: whether it got all, and the frames.
unfoldable pub take_frames : ℕ → Ram → FrameAllocator → Bool × List ℕ × FrameAllocator
take_frames zero ram a = (true, [], a)
take_frames (suc left) ram a = elim (allocate ram a).0 [
  | none ↦ (false, [], (allocate ram a).1)
  | some frame ↦
      let rest = take_frames left ram (allocate ram a).1 in (rest.0, frame ∷ rest.1, rest.2)
]

-- The loop over the frames taken; those before stand in `seen`.
unfoldable pub check_frames : FrameAllocator → List ℕ → List ℕ → SelfTest → SelfTest
unfolding fail
check_frames a seen [] t = t
check_frames a seen (frame ∷ frames) t =
    let t1 = if is_none (region_of a frame) then fail t outside_usable_ram else t in
    let t2 = if is_reserved a frame then fail t1 reserved_frame else t1 in
    let t3 = if member frame seen then fail t2 same_frame_twice else t2 in
    check_frames a (frame ∷ seen) frames t3

-- The loop that gives frames back, which stops at the first that is refused.
unfoldable pub give_frames :
    Ram → FrameAllocator → List ℕ → SelfTest → Bool × SelfTest × Ram × FrameAllocator
unfolding fail
give_frames ram a [] t = (true, t, ram, a)
give_frames ram a (frame ∷ frames) t =
    let after = free ram a frame in
    elim after.0 [
      | refused e ↦ (false, fail t refused_to_take_back, after.1, after.2)
      | freed ↦ give_frames after.1 after.2 frames (record t { given = t.given ++ (frame ∷ []) })
    ]

unfoldable pub is_double_free : FreeResult → Bool
is_double_free freed = false
is_double_free (refused already_free) = true
is_double_free (refused e) = false

-- The last loop, which leaves out the frame that is still free.
unfoldable pub give_rest :
    Ram → FrameAllocator → ℕ → List ℕ → SelfTest → SelfTest × Ram × FrameAllocator
unfolding fail
give_rest ram a still_free [] t = (t, ram, a)
give_rest ram a still_free (frame ∷ frames) t =
    let after = free ram a frame in
    let tried : SelfTest = elim after.0 [ freed ↦ t | refused e ↦ fail t refused_to_take_back ] in
    let skipping = give_rest ram a still_free frames t in
    let giving = give_rest after.1 after.2 still_free frames tried in
    if frame == still_free then skipping else giving

-- From the second allocation on.
unfoldable pub reuse : Ram → FrameAllocator → ℕ → SelfTest → SelfTest × Ram × FrameAllocator
unfolding fail is_double_free give_rest
reuse ram a in_use_before t =
    let last_freed = get_or t.given (length t.given - 1) 0 in
    let still_free = get_or t.given 0 0 in
    let again = allocate ram a in
    let t1 : SelfTest = elim again.0 [
      | some frame ↦
          let t' = record t { reused = some frame } in
          if frame == last_freed then t' else fail t' did_not_reuse
      | none ↦ fail t nothing_to_allocate
    ] in
    let twice = free ram again.1 still_free in
    let t2 = if is_double_free twice.0 then t1 else fail t1 accepted_double_free in
    let rest = give_rest twice.1 twice.2 still_free t.frames t2 in
    (
      if rest.2.in_use == in_use_before then rest.0 else fail rest.0 frames_went_missing,
      rest.1,
      rest.2,
    )

-- The test ends when a frame was refused.
unfoldable pub go_on : ℕ → Bool × SelfTest × Ram × FrameAllocator → SelfTest × Ram × FrameAllocator
go_on in_use_before (false, t, ram, a) = (t, ram, a)
go_on in_use_before (true, t, ram, a) = reuse ram a in_use_before t

-- What follows when all frames were taken.
unfoldable pub check_and_give :
    Ram → FrameAllocator → ℕ → SelfTest → SelfTest × Ram × FrameAllocator
unfolding check_frames give_frames go_on
check_and_give ram a in_use_before t =
    let count = length t.frames in
    let last_two = get_or t.frames (count - 1) 0 ∷ get_or t.frames (count - 2) 0 ∷ [] in
    go_on in_use_before (give_frames ram a last_two (check_frames a [] t.frames t))

unfoldable pub self_test : Ram → FrameAllocator → SelfTest × Ram × FrameAllocator
unfolding fail take_frames check_and_give
self_test ram a =
    let taken = take_frames self_test_frames ram a in
    let t : SelfTest = record { frames = taken.1; given = []; reused = none; failure = none } in
    elim taken.0 [
      | false ↦ (fail t ran_out, ram, taken.2)
      | true ↦ check_and_give ram taken.2 a.in_use t
    ]
