-- ===== src/Tests/Spill.antt =====
-- Spilled sequences of small numbers.
use excel_youhua.Prelude.{ℕ, List, [], ◌∷◌, map, Option, none, some, ◌≡◌, refl, length}
use excel_youhua.Spill.{
  Pickle, ℤ, pos, negsuc, place, at_place, no_objects, append_objects, append_object, get_object,
  SpillableSequence, new_sequence, extend, len,
}
use excel_youhua.Spill.Sequence.{reads, sequence_refines}

abbrev load_byte : List ℕ → Option (ℕ × ℕ)
load_byte [] = none
load_byte (b ∷ bs) = some (b, 1)

-- Each number is one byte.
abbrev bytes : Pickle ℕ
bytes = record { dump = λ n. n ∷ []; load = load_byte }

abbrev same : ℕ → ℕ
same n = n

abbrev two : SpillableSequence ℕ
two = record { spill_after_items = 2; items = []; spilled = none }

abbrev three : List ℕ
three = 7 ∷ 8 ∷ 9 ∷ []

abbrev indexes : List ℤ
indexes = pos 2 ∷ negsuc 2 ∷ pos 3 ∷ []

sequence_refines_example :
    let xs = map same three in
    (len bytes same (extend bytes same three two) ≡ length xs)
    × (reads bytes same indexes (extend bytes same three two)
        ≡ map (λ i. at_place xs (place i (length xs))) indexes)
sequence_refines_example =
    sequence_refines bytes same (λ x rest. refl) 2 three indexes two (unfold new_sequence in refl)

-- A read between two appends moves the position, so the second append overwrites the item after the one read.
overwritten :
    let read = get_object bytes (pos 0) (append_objects bytes (7 ∷ 8 ∷ []) no_objects) in
    (get_object bytes (pos 1) (append_object bytes 9 read.1)).0 ≡ some 9
unfolding get_object append_objects append_object
overwritten = refl
