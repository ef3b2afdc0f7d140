-- ===== src/Spill.antt =====
-- The sequences of spill.py that move their items to a temporary file.
pub mod Refinement
pub mod Sequence
use excel_youhua.Prelude.{
  ℕ, ◌+◌, ◌-◌, String, Bool, true, false, List, [], ◌∷◌, ◌++◌, Option, none, some, length,
  get_elem?, take, drop, ltb, leb, if◌then◌else◌,
}

-- `pickle.dump` and `pickle.load`: the bytes of an item, and the item at the start of some bytes with
-- the number of bytes that it takes.
pub record Pickle (T : Type 0) : Type 0 where
  pub dump : T → List ℕ
  pub load : List ℕ → Option (T × ℕ)

-- A Python `int` as an index: `negsuc n` is `-(n + 1)`.
pub data ℤ : Type 0 where
  pos negsuc : ℕ → ℤ

-- The place that an index stands for in a sequence of this length; there is none where `IndexError`
-- is raised.
abbrev pub place : ℤ → ℕ → Option ℕ
place (pos n) len = if ltb n len then some n else none
place (negsuc n) len = if ltb n len then some (len - 1 - n) else none

abbrev pub at_place {ℓ} : {A : Type ℓ} → List A → Option ℕ → Option A
at_place xs none = none
at_place xs (some n) = get_elem? xs n

-- `_SpilledObjects`; the temporary file is its bytes and the position of the next read or write.
pub record SpilledObjects : Type 0 where
  pub file : List ℕ
  pub position : ℕ
  pub offsets : List ℕ

-- Bytes written at a position replace those that stand there.
abbrev pub write_at : ℕ → List ℕ → List ℕ → List ℕ
write_at n bytes file = take n file ++ (bytes ++ drop (n + length bytes) file)

abbrev pub no_objects : SpilledObjects
no_objects = record { file = []; position = 0; offsets = [] }

module _ {T : Type 0} (pk : Pickle T) where
  -- `_SpilledObjects.append`
  unfoldable pub append_object : T → SpilledObjects → SpilledObjects
  append_object item so = record {
    offsets = so.offsets ++ so.position ∷ [];
    file = write_at so.position (pk.dump item) so.file;
    position = so.position + length (pk.dump item);
  }

  -- `pickle.load(self._file)` after `self._file.seek(offset)`
  abbrev pub load_at : SpilledObjects → ℕ → Option (T × ℕ) → Option T × SpilledObjects
  load_at so offset none = (none, so)
  load_at so offset (some (item, size)) = (some item, record so { position = offset + size })

  abbrev pub read_offset : SpilledObjects → Option ℕ → Option T × SpilledObjects
  read_offset so none = (none, so)
  read_offset so (some offset) = load_at so offset (pk.load (drop offset so.file))

  -- `_SpilledObjects.__getitem__` of an index
  unfoldable pub get_object : ℤ → SpilledObjects → Option T × SpilledObjects
  get_object index so = read_offset so (at_place so.offsets (place index (length so.offsets)))

  unfoldable pub append_objects : List T → SpilledObjects → SpilledObjects
  unfolding append_object
  append_objects [] so = so
  append_objects (x ∷ xs) so = append_objects xs (append_object x so)

-- `SpillableSequence`, but for `on_append`
pub record SpillableSequence (T : Type 0) : Type 0 where
  pub spill_after_items : ℕ
  pub items : List T
  pub spilled : Option SpilledObjects

-- `__init__`, with no value where it raises `ValueError`
unfoldable pub new_sequence : {T : Type 0} → ℕ → Option (SpillableSequence T)
new_sequence n =
    if ltb n 1 then none else some (record { spill_after_items = n; items = []; spilled = none })

module _ {T : Type 0} (pk : Pickle T) (on_append : T → T) where
  -- the move to the file
  unfoldable pub migrate : SpillableSequence T → SpillableSequence T
  unfolding append_objects
  migrate s = elim s.spilled [
    | some so ↦ s
    | none ↦
        if leb s.spill_after_items (length s.items)
        then record s { items = []; spilled = some (append_objects pk s.items no_objects) }
        else s
  ]

  abbrev pub store : T → SpillableSequence T → SpillableSequence T
  store item s = elim s.spilled [
    | none ↦ record s { items = s.items ++ item ∷ [] }
    | some so ↦ record s { spilled = some (append_object pk item so) }
  ]

  -- `append`; `on_append` is called first, and may change the item
  unfoldable pub append : T → SpillableSequence T → SpillableSequence T
  unfolding migrate append_object
  append item s = store (on_append item) (migrate s)

  unfoldable pub extend : List T → SpillableSequence T → SpillableSequence T
  unfolding append
  extend [] s = s
  extend (x ∷ xs) s = extend xs (append x s)

  -- `__len__`
  unfoldable pub len : SpillableSequence T → ℕ
  len s = elim s.spilled [ none ↦ length s.items | some so ↦ length so.offsets ]

  -- `__getitem__` of an index
  unfoldable pub get_item : ℤ → SpillableSequence T → Option T × SpillableSequence T
  unfolding get_object
  get_item index s = elim s.spilled [
    | none ↦ (at_place s.items (place index (length s.items)), s)
    | some so ↦ let (x, so') = get_object pk index so in (x, record s { spilled = some so' })
  ]

  unfoldable pub close : SpillableSequence T → SpillableSequence T
  close s = record s { items = []; spilled = none }
