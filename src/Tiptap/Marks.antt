-- ===== src/Tiptap/Marks.antt =====
-- Whatever the input, the marks that the sanitizer lets through are safe.
use veervrat_app.Base.{
  ◌≡◌, refl, subst, inl, inr, true, Option, none, some, some_of, arith, Bool-cases, Option-cases,
  All-In,
}
use veervrat_app.Model.{codes, text_eq, Text}
use veervrat_app.Tiptap.Values.{
  Json, Items, null, bool, num, str, arr, obj, nil, cons, end, get, get?, as_text,
}
use veervrat_app.Tiptap.{
  includes, allowed_mark_types, is_safe_url, safe_url, typed, link, field_unless_empty, clean_mark,
  clean_mark_of, clean_marks, sanitize_marks,
}
use veervrat_app.Tiptap.Safe.{
  SafeMark, SafeMarks, bold, italic, linked, none_left, marked, includes-In,
}

pub safe_url-IsSafe :
    (v : Option Json) (url : Text) → safe_url v ≡ some url → is_safe_url url ≡ true
safe_url-IsSafe v url h = ground arith

-- The cleaned mark of a type, by the type.
abbrev MarkSafe : Json → Text → Type 0
MarkSafe raw type = (out : Json) → clean_mark_of type raw ≡ some out → SafeMark out

link-SafeMark : (raw : Json) → MarkSafe raw (codes "link")
unfolding text_eq includes some_of
link-SafeMark raw out h =
    elim (Option-cases (safe_url (get? (codes "href") (get (codes "attrs") raw)))) [
      | inl e ↦ absurd (ground (arith, e))
      | inr (href, e) ↦
          let same : link href ≡ out = ground (arith, e) in
          subst SafeMark same (linked href (safe_url-IsSafe _ href e))
    ]

bold-SafeMark : (raw : Json) → MarkSafe raw (codes "bold")
unfolding text_eq includes some_of
bold-SafeMark raw out h = let same : typed (codes "bold") end ≡ out = cc in subst SafeMark same bold

italic-SafeMark : (raw : Json) → MarkSafe raw (codes "italic")
unfolding text_eq includes some_of
italic-SafeMark raw out h =
    let same : typed (codes "italic") end ≡ out = cc in subst SafeMark same italic

clean_mark-SafeMark : (raw out : Json) → clean_mark raw ≡ some out → SafeMark out
unfolding clean_mark
clean_mark-SafeMark raw out h = elim (Option-cases (as_text (get (codes "type") raw))) [
  | inl e ↦ absurd (ground (arith, e))
  | inr (type, e) ↦ elim (Bool-cases (includes allowed_mark_types type)) [
    | inl allowed ↦
        All-In (MarkSafe raw) allowed_mark_types type
          (bold-SafeMark raw, (italic-SafeMark raw, (link-SafeMark raw, tt)))
          (includes-In allowed_mark_types type allowed) out (rw e at h)
    | inr refused ↦ absurd (ground (arith, e, refused))
  ]
]

clean_marks-SafeMarks : (raw : Items) → SafeMarks (clean_marks raw)
unfolding clean_marks
clean_marks-SafeMarks nil = none_left
clean_marks-SafeMarks (cons raw marks) = elim (Option-cases (clean_mark raw)) [
  | inl e ↦ rw e (clean_marks-SafeMarks marks)
  | inr (out, e) ↦ rw e (marked (clean_mark-SafeMark raw out e) (clean_marks-SafeMarks marks))
]

-- The marks of a text, as the marks that are written.
pub kept_marks : Option Json → Items
kept_marks (some (arr marks)) = clean_marks marks
kept_marks _ = nil

pub sanitize_marks_lem :
    (v : Option Json) → sanitize_marks v ≡ field_unless_empty (codes "marks") (kept_marks v)
unfolding kept_marks
sanitize_marks_lem none = refl
sanitize_marks_lem (some null) = refl
sanitize_marks_lem (some (bool b)) = refl
sanitize_marks_lem (some (num n)) = refl
sanitize_marks_lem (some (str t)) = refl
sanitize_marks_lem (some (arr marks)) = refl
sanitize_marks_lem (some (obj n)) = refl

pub kept_marks-SafeMarks : (v : Option Json) → SafeMarks (kept_marks v)
unfolding kept_marks
kept_marks-SafeMarks none = none_left
kept_marks-SafeMarks (some null) = none_left
kept_marks-SafeMarks (some (bool b)) = none_left
kept_marks-SafeMarks (some (num n)) = none_left
kept_marks-SafeMarks (some (str t)) = none_left
kept_marks-SafeMarks (some (arr marks)) = clean_marks-SafeMarks marks
kept_marks-SafeMarks (some (obj n)) = none_left
