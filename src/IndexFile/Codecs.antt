-- ===== src/IndexFile/Codecs.antt =====
-- The entries of the five segments: how each kind is written and read.
use swishxx.Common.{
  ℕ, ◌^◌, ◌<◌, ◌≡◌, ◌≢◌, refl, arith, List, [], ◌∷◌, ◌++◌, some, All, append_assoc,
}
use swishxx.Vlq.Encode.{digits, encode-digits}
use swishxx.Vlq.Decode.{decode-digits}
use swishxx.Posting.{File, IsFile, IsShort, to_ulong, to_short}
use swishxx.Posting.Entry.{list_of, write_entry-list, skip_word-append, files-list}
use swishxx.FileInfo.{FileInfo, read_info, write_info}
use swishxx.FileInfo.RoundTrip.{
  IsText, IsInfo, read_string-text, info_bytes, write_info-bytes, info_bytes-append,
  read_info-bytes,
}
use swishxx.IndexFile.Entries.{Codec}
use swishxx.IndexFile.Write.{write_text, write_word, write_meta_name}
use swishxx.IndexFile.Read.{read_text, read_word, get_meta_id, read_meta_name}

no_nulls : (cs : List ℕ) → IsText cs → All (λ c. c ≢ 0) cs
no_nulls [] h = tt
no_nulls (c ∷ cs) (n, h) = (λ e. ground (arith, n), no_nulls cs h)

read_text-text : (cs rest : List ℕ) → IsText cs → read_text (cs ++ (0 ∷ rest)) ≡ some cs
unfolding read_text
read_text-text cs rest h = rw (read_string-text cs rest h) refl

unfoldable pub text_bytes : List ℕ → List ℕ
text_bytes cs = cs ++ (0 ∷ [])

pub text_read : (cs rest : List ℕ) → IsText cs → read_text (text_bytes cs ++ rest) ≡ some cs
unfolding text_bytes
text_read cs rest h = rw (append_assoc cs (0 ∷ []) rest) (read_text-text cs rest h)

unfoldable pub text_codec : Codec (List ℕ)
unfolding text_bytes
text_codec = record {
  write = write_text;
  read = read_text;
  bytes = text_bytes;
  IsEntry = IsText;
  is_written = λ cs h. refl;
  is_read = text_read;
}

unfoldable pub info_codec : Codec FileInfo
info_codec = record {
  write = write_info;
  read = read_info;
  bytes = λ fi. info_bytes fi [];
  IsEntry = IsInfo;
  is_written = write_info-bytes;
  is_read = λ fi rest h. rw (info_bytes-append fi rest) (read_info-bytes fi rest h);
}

-- A word without a null, with one file or more.
abbrev pub IsWordEntry : List ℕ × List File → Type 0
IsWordEntry (word, []) = ⊥
IsWordEntry (word, (f ∷ fs)) = IsText word × All IsFile (f ∷ fs)

unfoldable pub word_bytes : List ℕ × List File → List ℕ
word_bytes (word, []) = word
word_bytes (word, (f ∷ fs)) = word ++ (0 ∷ list_of f fs [])

pub word_written : (w : List ℕ × List File) → IsWordEntry w → write_word w ≡ some (word_bytes w)
unfolding word_bytes
word_written (word, []) h = elim h [ ]
word_written (word, (f ∷ fs)) (t, h) = write_entry-list word f fs h

pub word_read :
    (w : List ℕ × List File) (rest : List ℕ)
    → IsWordEntry w
    → read_word (word_bytes w ++ rest) ≡ some w
unfolding word_bytes read_word
word_read (word, []) rest h = elim h [ ]
word_read (word, (f ∷ fs)) rest (t, h) =
    let list = list_of f fs rest in
    let whole : (word ++ (0 ∷ list_of f fs [])) ++ rest ≡ word ++ (0 ∷ list) =
      simp append_assoc refl in
    rw
      (
        whole,
        read_text-text word list t,
        skip_word-append word list (no_nulls word t),
        files-list f fs rest h,
      )
      refl

unfoldable pub word_codec : Codec (List ℕ × List File)
word_codec = record {
  write = write_word;
  read = read_word;
  bytes = word_bytes;
  IsEntry = IsWordEntry;
  is_written = word_written;
  is_read = word_read;
}

-- A name without a null, and a short.
abbrev pub IsMetaName : List ℕ × ℕ → Type 0
IsMetaName m = IsText m.0 × IsShort m.1

unfoldable pub meta_bytes : List ℕ × ℕ → List ℕ
meta_bytes m = m.0 ++ (0 ∷ digits (to_ulong m.1))

to_ulong_fits : (s : ℕ) → IsShort s → to_ulong s < 2 ^ 64
to_ulong_fits s h = ground arith

to_short-to_ulong : (s : ℕ) → IsShort s → to_short (to_ulong s) ≡ s
to_short-to_ulong s h = ground arith

pub meta_written : (m : List ℕ × ℕ) → IsMetaName m → write_meta_name m ≡ some (meta_bytes m)
unfolding write_meta_name meta_bytes
meta_written m (t, h) = rw (encode-digits (to_ulong m.1) (to_ulong_fits m.1 h)) refl

pub meta_read :
    (m : List ℕ × ℕ) (rest : List ℕ) → IsMetaName m → read_meta_name (meta_bytes m ++ rest) ≡ some m
unfolding meta_bytes read_meta_name get_meta_id
meta_read m rest (t, h) =
    let code = digits (to_ulong m.1) ++ rest in
    let whole : (m.0 ++ (0 ∷ digits (to_ulong m.1))) ++ rest ≡ m.0 ++ (0 ∷ code) =
      append_assoc m.0 (0 ∷ digits (to_ulong m.1)) rest in
    rw
      (
        whole,
        read_text-text m.0 code t,
        skip_word-append m.0 code (no_nulls m.0 t),
        decode-digits (to_ulong m.1) rest (to_ulong_fits m.1 h),
        to_short-to_ulong m.1 h,
      )
      refl

unfoldable pub meta_name_codec : Codec (List ℕ × ℕ)
meta_name_codec = record {
  write = write_meta_name;
  read = read_meta_name;
  bytes = meta_bytes;
  IsEntry = IsMetaName;
  is_written = meta_written;
  is_read = meta_read;
}
