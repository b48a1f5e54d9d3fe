-- ===== src/Tiptap.antt =====
-- apps/api/src/common/tiptap/sanitize.ts: rich text as a document in JSON, cleaned before it is
-- stored.
pub mod Values
pub mod Safe
pub mod Kept
pub mod Marks
pub mod Cleaned
pub mod PlainText
pub mod TextNodes
pub mod Tests
use veervrat_app.Tiptap.Values.{
  Json, Items, Fields, null, bool, num, str, arr, obj, nil, cons, end, field, Number, int, other,
  lookup, get, get?, as_text, is_nil,
}
use veervrat_app.Base.{
  ℕ, ◌+◌, Bool, true, false, ◌&&◌, ◌||◌, not, Option, none, some, List, [], ◌∷◌, ◌++◌, ◌==◌, leb,
  some_of, length, take, if◌then◌else◌, is_some,
}
use veervrat_app.Model.{codes, text_eq, Text}

unfoldable pub includes : List Text → Text → Bool
includes texts t = some_of (λ s. text_eq s t) texts

abbrev pub allowed_node_types : List Text
allowed_node_types =
    codes "doc"
    ∷ codes "paragraph"
    ∷ codes "heading"
    ∷ codes "text"
    ∷ codes "hardBreak"
    ∷ codes "bulletList"
    ∷ codes "orderedList"
    ∷ codes "listItem"
    ∷ codes "blockquote"
    ∷ codes "image"
    ∷ codes "entityAt"
    ∷ codes "entityHash"
    ∷ []

abbrev pub entity_mention_types : List Text
entity_mention_types = codes "entityAt" ∷ codes "entityHash" ∷ []

abbrev pub allowed_mark_types : List Text
allowed_mark_types = codes "bold" ∷ codes "italic" ∷ codes "link" ∷ []

abbrev pub allowed_entity_types : List Text
allowed_entity_types =
    codes "weakness"
    ∷ codes "virtue"
    ∷ codes "subvirtue"
    ∷ codes "sentence"
    ∷ codes "journey"
    ∷ codes "exposure"
    ∷ codes "resolution"
    ∷ codes "challenge"
    ∷ []

abbrev pub mention_label_max : ℕ
mention_label_max = 120

-- `/^https?:\/\//i`: a letter of the pattern matches in both cases
abbrev pub is_letter : ℕ → ℕ → Bool
is_letter lower c = c == lower || c + 32 == lower

abbrev pub follows : List (ℕ → Bool) → Text → Option Text
follows [] t = some t
follows (p ∷ ps) [] = none
follows (p ∷ ps) (c ∷ t) = let rest = follows ps t in if p c then rest else none

abbrev http : List (ℕ → Bool)
http = is_letter b'h' ∷ is_letter b't' ∷ is_letter b't' ∷ is_letter b'p' ∷ []

abbrev slashes : List (ℕ → Bool)
slashes = (λ c. c == b':') ∷ (λ c. c == b'/') ∷ (λ c. c == b'/') ∷ []

-- after "http", the optional "s" and the rest
abbrev after_http : Option Text → Bool
after_http none = false
after_http (some t) = is_some (follows slashes t) || is_some (follows (is_letter b's' ∷ slashes) t)

unfoldable pub is_safe_url : Text → Bool
is_safe_url url = after_http (follows http url)

abbrev pub safe_url : Option Json → Option Text
safe_url (some (str url)) = if is_safe_url url then some url else none
safe_url _ = none

-- `{ type, … }`
abbrev pub typed : Text → Fields → Json
typed type fields = obj (field (codes "type") (str type) fields)

abbrev pub link_attrs : Text → Fields
link_attrs href = field (codes "href") (str href) (
    field (codes "rel") (str (codes "noopener noreferrer nofollow"))
      (field (codes "target") (str (codes "_blank")) end))

abbrev pub link : Text → Json
link href = typed (codes "link") (field (codes "attrs") (obj (link_attrs href)) end)

abbrev pub clean_link : Option Text → Option Json
clean_link none = none
clean_link (some href) = some (link href)

abbrev pub clean_mark_of : Text → Json → Option Json
clean_mark_of type raw =
    if includes allowed_mark_types type
    then if text_eq type (codes "link")
      then clean_link (safe_url (get? (codes "href") (get (codes "attrs") raw)))
      else some (typed type end)
    else none

abbrev pub clean_mark_typed : Option Text → Json → Option Json
clean_mark_typed none raw = none
clean_mark_typed (some type) raw = clean_mark_of type raw

unfoldable pub clean_mark : Json → Option Json
clean_mark raw = clean_mark_typed (as_text (get (codes "type") raw)) raw

abbrev pub add : Option Json → Items → Items
add none items = items
add (some j) items = cons j items

unfoldable pub clean_marks : Items → Items
clean_marks nil = nil
clean_marks (cons raw marks) = add (clean_mark raw) (clean_marks marks)

-- a list of values as a field, which is left out if it is empty
abbrev pub field_unless_empty : Text → Items → Fields
field_unless_empty key nil = end
field_unless_empty key (cons j items) = field key (arr (cons j items)) end

abbrev pub sanitize_marks : Option Json → Fields
sanitize_marks (some (arr marks)) = field_unless_empty (codes "marks") (clean_marks marks)
sanitize_marks _ = end

abbrev pub heading_level : Option Json → ℕ
heading_level (some (num (int n))) = if n == 2 || n == 3 || n == 4 then n else 2
heading_level _ = 2

abbrev pub level_attrs : ℕ → Json
level_attrs n = obj (field (codes "level") (num (int n)) end)

abbrev pub label_of : Option Json → Text
label_of (some (str label)) = take mention_label_max label
label_of _ = []

abbrev pub mention_attrs : (entity_type entity_id label : Text) → Json
mention_attrs entity_type entity_id label = obj (
    field (codes "entityType") (str entity_type)
      (field (codes "entityId") (str entity_id) (field (codes "label") (str label) end)))

-- The node types that have no children, each with what it takes from the node.
abbrev pub text_node : Text → Fields → Json
text_node t marks = typed (codes "text") (field (codes "text") (str t) marks)

abbrev pub clean_text : Option Text → Option Json → Option Json
clean_text none marks = none
clean_text (some t) marks = some (text_node t (sanitize_marks marks))

abbrev pub image : Text → Json
image src =
    typed (codes "image") (field (codes "attrs") (obj (field (codes "src") (str src) end)) end)

abbrev pub clean_image : Option Text → Option Json
clean_image none = none
clean_image (some src) = some (image src)

abbrev pub mention : (type entity_type entity_id label : Text) → Json
mention type entity_type entity_id label =
    typed type (field (codes "attrs") (mention_attrs entity_type entity_id label) end)

abbrev pub is_entity_id : Text → Bool
is_entity_id id = not (length id == 0) && leb (length id) 64

abbrev pub clean_mention : Text → Option Text → Option Text → Text → Option Json
clean_mention type (some entity_type) (some entity_id) label =
    if includes allowed_entity_types entity_type && is_entity_id entity_id
    then some (mention type entity_type entity_id label)
    else none
clean_mention type _ _ label = none

abbrev pub content_field : Option Items → Fields
content_field none = end
content_field (some items) = field_unless_empty (codes "content") items

-- every other node: its type, a heading's level, and the cleaned children
abbrev pub clean_block : Text → Option Json → Option Items → Json
clean_block type attrs children = typed type (
    if text_eq type (codes "heading")
    then field (codes "attrs") (level_attrs (heading_level (get? (codes "level") attrs)))
        (content_field children)
    else content_field children)

-- the node of an allowed type, whose cleaned children are given
abbrev pub clean_allowed : Text → Fields → Option Items → Option Json
clean_allowed type n children =
    let attrs = lookup (codes "attrs") n in
    if text_eq type (codes "text")
    then clean_text (as_text (lookup (codes "text") n)) (lookup (codes "marks") n)
    else if text_eq type (codes "image")
    then clean_image (safe_url (get? (codes "src") attrs))
    else if includes entity_mention_types type
    then clean_mention type (as_text (get? (codes "entityType") attrs))
        (as_text (get? (codes "entityId") attrs)) (label_of (get? (codes "label") attrs))
    else some (clean_block type attrs children)

abbrev pub clean_node : Option Text → Fields → Option Items → Option Json
clean_node none n children = none
clean_node (some type) n children =
    if includes allowed_node_types type then clean_allowed type n children else none

-- `sanitizeNode`, its null being none; `children` cleans `n.content` where that is an array
unfoldable mutual
  pub sanitize_node : Json → Option Json
  sanitize_node (obj n) = clean_node (as_text (lookup (codes "type") n)) n (children n)
  sanitize_node null = none
  sanitize_node (bool b) = none
  sanitize_node (num n) = none
  sanitize_node (str t) = none
  sanitize_node (arr items) = none

  pub children : Fields → Option Items
  children end = none
  children (field k v n) =
      let here = child_list v in
      let later = children n in if text_eq k (codes "content") then here else later

  pub child_list : Json → Option Items
  child_list (arr items) = some (sanitize_items items)
  child_list null = none
  child_list (bool b) = none
  child_list (num n) = none
  child_list (str t) = none
  child_list (obj n) = none

  pub sanitize_items : Items → Items
  sanitize_items nil = nil
  sanitize_items (cons j items) = add (sanitize_node j) (sanitize_items items)

-- `InvalidTiptapContentError`, by its two messages
pub data Sanitized : Type 0 where
  clean : Json → Sanitized
  not_a_document empty : Sanitized

abbrev pub doc : Items → Json
doc items = typed (codes "doc") (field (codes "content") (arr items) end)

abbrev pub clean_doc : Option Items → Sanitized
clean_doc none = empty
clean_doc (some nil) = empty
clean_doc (some (cons j items)) = clean (doc (cons j items))

abbrev pub clean_doc_typed : Option Text → Option Items → Sanitized
clean_doc_typed none items = not_a_document
clean_doc_typed (some type) items =
    if text_eq type (codes "doc") then clean_doc items else not_a_document

unfoldable pub sanitize_tiptap_doc : Json → Sanitized
sanitize_tiptap_doc (obj input) =
    clean_doc_typed (as_text (lookup (codes "type") input)) (children input)
sanitize_tiptap_doc _ = not_a_document
