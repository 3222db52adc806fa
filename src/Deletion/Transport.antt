-- ===== src/Deletion/Transport.antt =====
-- core/tombstones.py: the dict forms of a tombstone and of a batch. What `int` reads from a text is a
-- parameter. `TombstoneBatch` defines `to_dict` and `from_dict` twice, and Python keeps the second
-- definitions.
use mirror_memory.Prelude.{
  ℕ, String, Option, none, some, List, [], ◌∷◌, all, map, is_some, or_else, ◌==◌, if◌then◌else◌,
  ◌≡◌, refl,
}
use mirror_memory.Prelude.Text.{str_eq, decimal_text}
use mirror_memory.Prelude.Dict.{Dict, get}
use mirror_memory.Deletion.Tombstones.{TombstoneEntry, TombstoneBatch, Rejection, format}

-- A field of an object.
pub data Value : Type 0 where
  text : String → Value
  number : ℕ → Value
  null : Value

-- A field of a batch's dict; the entries may be no objects.
pub data BatchValue : Type 0 where
  scalar : Value → BatchValue
  texts : List String → BatchValue
  objects : List (Option (Dict Value)) → BatchValue

pub data Failure : Type 0 where
  rejected : Rejection → Failure
  type_error value_error : Failure

pub data Parsed {ℓ} (A : Type ℓ) : Type ℓ where
  returned : A → Parsed A
  raised : Failure → Parsed A

infixl 5 ◌>>=◌
abbrev pub ◌>>=◌ {ℓ κ} : {A : Type ℓ} {B : Type κ} → Parsed A → (A → Parsed B) → Parsed B
returned a >>= f = f a
raised e >>= f = raised e

-- `str(value)` and `str(value or "")`
abbrev str_of : Value → String
str_of (text s) = s
str_of (number n) = decimal_text n
str_of null = "None"

abbrev str_or_empty : Value → String
str_or_empty (text s) = s
str_or_empty (number n) = if n == 0 then "" else decimal_text n
str_or_empty null = ""

unfoldable pub entry_to_dict : TombstoneEntry → Dict Value
entry_to_dict e =
    ("origin", text e.payload.origin)
    ∷ ("origin_seq", number e.payload.origin_seq)
    ∷ ("tenant_id", text e.payload.tenant_id)
    ∷ ("app_id", text e.payload.app_id)
    ∷ ("user_id", text e.payload.user_id)
    ∷ ("scope", text e.payload.scope)
    ∷ ("scope_key", text e.payload.scope_key)
    ∷ ("generation", number e.payload.generation)
    ∷ ("created_at", text e.payload.created_at)
    ∷ ("origin_hash", text e.payload.origin_hash)
    ∷ ("hash", text e.hash)
    ∷ []

abbrev pub entry_fields : List String
entry_fields =
    "origin" ∷ "origin_seq" ∷ "tenant_id" ∷ "app_id" ∷ "user_id" ∷ "scope" ∷ "scope_key"
    ∷ "generation" ∷ "created_at" ∷ "hash" ∷ "origin_hash" ∷ []

abbrev pub batch_fields : List String
batch_fields = "sender" ∷ "from_cursor" ∷ "to_cursor" ∷ "entries" ∷ "hash" ∷ []

abbrev field : Dict Value → String → Value
field d key = or_else (get d key) null

abbrev batch_field : Dict BatchValue → String → BatchValue
batch_field d key = or_else (get d key) (scalar null)

unfoldable pub batch_to_dict : TombstoneBatch → Dict BatchValue
unfolding entry_to_dict
batch_to_dict b =
    ("sender", scalar (text b.sender))
    ∷ ("from_cursor", scalar (number b.from_cursor))
    ∷ ("to_cursor", scalar (number b.to_cursor))
    ∷ ("from_chain_hash", scalar (text b.from_chain_hash))
    ∷ ("to_chain_hash", scalar (text b.to_chain_hash))
    ∷ ("entry_hashes", texts (map (λ e. e.hash) b.entries))
    ∷ ("entries", objects (map (λ e. some (entry_to_dict e)) b.entries))
    ∷ ("hash", scalar (text b.hash))
    ∷ []

module _ (parse_int : String → Option ℕ) where
  -- `int(value)`
  abbrev pub int_of : Value → Parsed ℕ
  int_of (number n) = returned n
  int_of (text s) = elim (parse_int s) [ none ↦ raised value_error | some n ↦ returned n ]
  int_of null = raised type_error

  -- A mistyped field is a rejection of the format.
  abbrev as_format {ℓ} : {A : Type ℓ} → Parsed A → Parsed A
  as_format (returned a) = returned a
  as_format (raised e) = raised (rejected format)

  unfoldable pub entry_from_dict : Option (Dict Value) → Parsed TombstoneEntry
  entry_from_dict none = raised (rejected format)
  entry_from_dict (some d) =
      if all (λ key. is_some (get d key)) entry_fields
      then as_format (
          int_of (field d "origin_seq") >>= λ origin_seq.
          int_of (field d "generation") >>= λ generation. returned (record {
            payload = record {
              origin = str_of (field d "origin");
              origin_seq = origin_seq;
              tenant_id = str_of (field d "tenant_id");
              app_id = str_of (field d "app_id");
              user_id = str_of (field d "user_id");
              scope = str_of (field d "scope");
              scope_key = str_or_empty (field d "scope_key");
              generation = generation;
              created_at = str_of (field d "created_at");
              origin_hash = str_of (field d "origin_hash");
            };
            hash = str_of (field d "hash");
          }))
      else raised (rejected format)

  unfoldable pub entries_from : List (Option (Dict Value)) → Parsed (List TombstoneEntry)
  unfolding entry_from_dict
  entries_from [] = returned []
  entries_from (o ∷ os) = entry_from_dict o >>= λ e. entries_from os >>= λ es. returned (e ∷ es)

  -- The loop over a value that is no list: over a text it meets its characters.
  unfoldable pub entries_of : BatchValue → Parsed (List TombstoneEntry)
  unfolding entries_from
  entries_of (objects os) = entries_from os
  entries_of (texts []) = returned []
  entries_of (texts (t ∷ ts)) = raised (rejected format)
  entries_of (scalar (text s)) = if str_eq s "" then returned [] else raised (rejected format)
  entries_of (scalar (number n)) = raised type_error
  entries_of (scalar null) = raised type_error

  abbrev int_in : BatchValue → Parsed ℕ
  int_in (scalar v) = int_of v
  int_in (texts ts) = raised type_error
  int_in (objects os) = raised type_error

  -- The second `from_dict`: it calls the constructor without its two required chain hashes, so that a
  -- dict that passes the reading of its fields raises as well.
  unfoldable pub batch_from_dict : Option (Dict BatchValue) → Parsed TombstoneBatch
  unfolding entries_of
  batch_from_dict none = raised (rejected format)
  batch_from_dict (some d) =
      if all (λ key. is_some (get d key)) batch_fields
      then (entries_of (batch_field d "entries") >>= λ entries.
          int_in (batch_field d "from_cursor") >>= λ from_cursor.
          int_in (batch_field d "to_cursor") >>= λ to_cursor. raised type_error)
      else raised (rejected format)

  -- A tombstone that is written as a dict is read back as it was.
  pub entry_from_dict-entry_to_dict :
      (e : TombstoneEntry) → entry_from_dict (some (entry_to_dict e)) ≡ returned e
  unfolding entry_from_dict entry_to_dict
  entry_from_dict-entry_to_dict e = refl

  entries_from-map :
      (es : List TombstoneEntry) → entries_from (map (λ e. some (entry_to_dict e)) es) ≡ returned es
  unfolding entries_from
  entries_from-map [] = refl
  entries_from-map (e ∷ es) = rw (entry_from_dict-entry_to_dict e) (rw (entries_from-map es) refl)

  -- No batch that is written as a dict is read back: every one raises a TypeError.
  pub batch_from_dict-batch_to_dict :
      (b : TombstoneBatch) → batch_from_dict (some (batch_to_dict b)) ≡ raised type_error
  unfolding batch_from_dict batch_to_dict entries_of
  batch_from_dict-batch_to_dict b = rw (entries_from-map b.entries) refl
