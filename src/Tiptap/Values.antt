-- ===== src/Tiptap/Values.antt =====
-- JSON values, as the sanitizer of apps/api/src/common/tiptap reads them.
use veervrat_app.Base.{ℕ, Bool, true, false, Option, none, some, if◌then◌else◌}
use veervrat_app.Model.{Text, text_eq}

-- A number that is no natural number is `other`, told from the rest by an index: the code only
-- compares numbers with 2, 3 and 4.
pub data Number : Type 0 where
  int : ℕ → Number
  other : ℕ → Number

mutual
  pub data Json : Type 0 where
    null : Json
    bool : Bool → Json
    num : Number → Json
    str : Text → Json
    arr : Items → Json
    obj : Fields → Json

  pub data Items : Type 0 where
    nil : Items
    cons : Json → Items → Items

  pub data Fields : Type 0 where
    end : Fields
    field : Text → Json → Fields → Fields

-- `o.key` of an object; none is `undefined`
unfoldable pub lookup : Text → Fields → Option Json
lookup key end = none
lookup key (field k v fields) = if text_eq k key then some v else lookup key fields

-- `v?.key` of any value: an array and a primitive value have none of the keys that are read
abbrev pub get : Text → Json → Option Json
get key (obj fields) = lookup key fields
get key _ = none

abbrev pub get? : Text → Option Json → Option Json
get? key none = none
get? key (some v) = get key v

-- `typeof v === 'string' ? v : …`
abbrev pub as_text : Option Json → Option Text
as_text (some (str t)) = some t
as_text _ = none

abbrev pub is_nil : Items → Bool
is_nil nil = true
is_nil (cons j items) = false
