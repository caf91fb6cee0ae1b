-- ===== src/Xml.antt =====
-- src/xml_formatter.cpp: how the title of a file is written to the results. The title is character data of XML.
pub mod RoundTrip
use swishxx.Common.{
  ℕ, zero, suc, ◌+◌, Bool, true, false, List, [], ◌∷◌, Option, none, some, if◌then◌else◌, length,
  codes,
}
use swishxx.Filter.{find_first_of, replace}

module _ (c : ℕ) (text : List ℕ) where
  -- A loop of `escape`, from a position on: a character is replaced by a text, and the search goes on behind that.
  unfoldable pub replace_loop : ℕ → List ℕ → ℕ → List ℕ
  replace_loop zero s i = s
  replace_loop (suc fuel) s i = elim (find_first_of s (c ∷ []) i) [
    | none ↦ s
    | some p ↦ replace_loop fuel (replace s p 1 text) (p + length text)
  ]

-- Each round handles a character of its own.
unfoldable pub escape : List ℕ → List ℕ
escape s =
    let ampersands = replace_loop b'&' (codes "&amp;") (suc (length s)) s 0 in
    replace_loop b'<' (codes "&lt;") (suc (length ampersands)) ampersands 0

-- `strpbrk( s, "&<" )`
unfoldable pub has_special : List ℕ → Bool
has_special s = elim (find_first_of s (codes "&<") 0) [ none ↦ false | some p ↦ true ]

-- What `result` writes between the tags of the title.
unfoldable pub write_title : List ℕ → List ℕ
write_title title = if has_special title then escape title else title
