-- ===== src/Tiptap/Tests.antt =====
-- The sanitizer on a forged document.
use veervrat_app.Base.{◌≡◌, refl, some_of}
use veervrat_app.Model.{codes, text_eq}
use veervrat_app.Tiptap.Values.{Json, str, arr, obj, nil, cons, end, field, lookup}
use veervrat_app.Tiptap.{
  typed, includes, is_safe_url, clean_mark, clean_marks, sanitize_node, sanitize_tiptap_doc, clean,
  not_a_document, empty, doc, text_node, link, level_attrs,
}
use veervrat_app.Tiptap.Safe.{SafeDoc, words, no_more, more, none_left}
use veervrat_app.Tiptap.Kept.{sanitize_tiptap_doc_kept}
use veervrat_app.Tiptap.Cleaned.{sanitize_tiptap_doc-SafeDoc}
use veervrat_app.Tiptap.PlainText.{
  walk, is_space, join, collapse, trim_start, trim_end, normalize, tiptap_to_plain_text,
}

sanitizer : Unit {0}
unfolding text_eq lookup includes is_safe_url some_of clean_mark clean_marks sanitize_node
    sanitize_tiptap_doc walk is_space join collapse trim_start trim_end normalize
    tiptap_to_plain_text
sanitizer = tt

-- a heading of level 7 with a script beside a text that links to a script
abbrev bad_link : Json
bad_link =
    typed (codes "link")
      (field (codes "attrs") (obj (field (codes "href") (str (codes "javascript:x")) end)) end)

abbrev good_link : Json
good_link =
    typed (codes "link")
      (field (codes "attrs") (obj (field (codes "href") (str (codes "HTTPS://a")) end)) end)

abbrev forged : Json
forged = doc (
    cons
      (typed (codes "heading") (
        field (codes "attrs") (level_attrs 7) (
          field (codes "content")
            (arr (
              cons (typed (codes "script") end) (
                cons
                  (text_node (codes " a  b")
                    (field (codes "marks") (arr (cons bad_link (cons good_link nil))) end))
                  nil)))
            end)))
      nil)

abbrev cleaned : Json
cleaned = doc (
    cons
      (typed (codes "heading") (
        field (codes "attrs") (level_attrs 2) (
          field (codes "content")
            (arr (
              cons
                (text_node (codes " a  b")
                  (field (codes "marks") (arr (cons (link (codes "HTTPS://a")) nil)) end))
                nil))
            end)))
      nil)

forged_is_cleaned : sanitize_tiptap_doc forged ≡ clean cleaned
unfolding sanitizer
forged_is_cleaned = refl

tests :
    (sanitize_tiptap_doc (doc (cons (typed (codes "script") end) nil)) ≡ empty)
    × (sanitize_tiptap_doc (arr nil) ≡ not_a_document)
    × (tiptap_to_plain_text forged ≡ codes "a b")
unfolding sanitizer
tests = (refl, refl, refl)

sanitize_tiptap_doc-SafeDoc_example : SafeDoc cleaned
sanitize_tiptap_doc-SafeDoc_example = sanitize_tiptap_doc-SafeDoc forged cleaned forged_is_cleaned

abbrev plain : Json
plain = doc (cons (text_node (codes "a") end) nil)

plain-SafeDoc : SafeDoc plain
plain-SafeDoc = (_, (nil, more (words (codes "a") nil none_left) no_more, refl))

sanitize_tiptap_doc_kept_example : sanitize_tiptap_doc plain ≡ clean plain
sanitize_tiptap_doc_kept_example = sanitize_tiptap_doc_kept plain plain-SafeDoc
