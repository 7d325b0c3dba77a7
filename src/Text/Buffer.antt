-- ===== src/Text/Buffer.antt =====
-- The growing string of src/round/util/string.c. Its memory is the list of its bytes; what
-- `malloc` and `realloc` put into new bytes is a parameter. A write outside the memory has no
-- result. Allocation succeeds, and the string is not NULL.
pub mod Contents
use round.Common.{
  ℕ, zero, suc, ◌+◌, ◌-◌, ◌<◌, ◌≡◌, refl, Bool, true, false, ◌||◌, Option, none, some, List, [],
  ◌∷◌, ◌++◌, ltb, leb, ◌==◌, if◌then◌else◌, not, length, get_or, set, take, drop,
}
use round.Text.{CString}

-- `RoundString`
pub record RoundString : Type 0 where
  pub value : Option (List ℕ)
  pub mem_size : ℕ
  pub value_size : ℕ

-- `round_string_new`
unfoldable pub string_new : RoundString
string_new = record { value = none; mem_size = 0; value_size = 0 }

-- `round_string_clear`
unfoldable pub string_clear : RoundString → RoundString
string_clear str = record { value = none; mem_size = 0; value_size = 0 }

-- `memcpy(memory + at, bytes, length)` within the memory, and else no result.
unfoldable pub memcpy : List ℕ → ℕ → List ℕ → Option (List ℕ)
memcpy memory at bytes =
    if leb (at + length bytes) (length memory)
    then some (take at memory ++ bytes ++ drop (at + length bytes) memory)
    else none

-- `memory[at] = '\0'`
unfoldable pub terminate : List ℕ → ℕ → Option (List ℕ)
terminate memory at = if ltb at (length memory) then some (set memory at 0) else none

-- The copy of the bytes to a place in the memory, with a 0 behind it.
unfoldable pub write_at : List ℕ → ℕ → List ℕ → Option (List ℕ)
unfolding memcpy terminate
write_at memory at bytes = elim (memcpy memory at bytes) [
  | none ↦ none
  | some copied ↦ terminate copied (at + length bytes)
]

-- `round_string_length`
unfoldable pub string_length : RoundString → ℕ
string_length str = elim str.value [ none ↦ 0 | some _ ↦ str.value_size ]

-- `ROUND_STRING_REALLOC_EXTRA`
abbrev pub realloc_extra : ℕ
realloc_extra = 16

module _ (garbage : ℕ → List ℕ) where
  -- `realloc(memory, size)` to a greater size; `malloc` where there is no memory.
  unfoldable pub realloc : Option (List ℕ) → ℕ → List ℕ
  realloc none size = garbage size
  realloc (some memory) size = memory ++ garbage (size - length memory)

  -- `round_string_setnvalue`, the value with its length as a list
  unfoldable pub setnvalue : RoundString → Option (List ℕ) → Option (RoundString × Bool)
  unfolding string_clear realloc write_at
  setnvalue str none = some (string_clear str, true)
  setnvalue str (some bytes) =
      let size : ℕ = length bytes in
      elim (write_at (realloc none (size + 1)) 0 bytes) [
        | none ↦ none
        | some memory ↦
            some (record { value = some memory; mem_size = size + 1; value_size = size }, true)
      ]

  -- `round_string_setvalue`
  unfoldable pub setvalue : RoundString → CString → Option (RoundString × Bool)
  unfolding setnvalue
  setvalue str none = some (str, false)
  setvalue str (some bytes) = setnvalue str (some bytes)

  abbrev pub allocated : Option (List ℕ) → Bool
  allocated none = false
  allocated (some _) = true

  -- The reallocation in `round_string_naddvalue`, for so many new bytes
  unfoldable pub grow : RoundString → ℕ → RoundString
  unfolding realloc
  grow str value_len =
      let new_mem_size : ℕ = str.value_size + value_len + 1 in
      if ltb str.mem_size new_mem_size || not (allocated str.value)
      then record str {
        value = some (realloc str.value (new_mem_size + realloc_extra));
        mem_size = new_mem_size + realloc_extra;
      }
      else str

  -- `round_string_naddvalue`, the value with its length as a list
  unfoldable pub naddvalue : RoundString → Option (List ℕ) → Option RoundString
  unfolding grow write_at
  naddvalue str none = some str
  naddvalue str (some bytes) =
      let grown : RoundString = grow str (length bytes) in
      if length bytes == 0 then some str else elim grown.value [
        | none ↦ none
        | some memory ↦ elim (write_at memory str.value_size bytes) [
          | none ↦ none
          | some written ↦
              some
                (record grown { value = some written; value_size = str.value_size + length bytes })
        ]
      ]

  -- `round_string_naddrepvalue`
  unfoldable pub naddrepvalue : ℕ → RoundString → Option (List ℕ) → Option RoundString
  unfolding naddvalue
  naddrepvalue zero str value = some str
  naddrepvalue (suc repeat_cnt) str value = elim (naddvalue str value) [
    | none ↦ none
    | some s ↦ naddrepvalue repeat_cnt s value
  ]
