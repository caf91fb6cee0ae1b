-- ===== src/FileInfo/RoundTrip.antt =====
-- The index of files is read back.
use swishxx.Common.{
  ℕ, ◌+◌, ◌%◌, ◌^◌, ◌<◌, ◌≡◌, refl, ◌∙◌, arith, false, List, [], ◌∷◌, ◌++◌, some, ◌==◌, length,
  drop, All, append_assoc, length-append, drop-length,
}
use mathlib.Core.Path.{subst}
use swishxx.Vlq.Encode.{digits, encode-digits}
use swishxx.Vlq.Decode.{decode-digits}
use swishxx.FileInfo.{FileInfo, write_info, write_file_index, read_string, read_info}

-- A string has no null.
abbrev pub IsText : List ℕ → Type 0
IsText cs = All (λ c. (c == 0) ≡ false) cs

-- What the C++ types give.
pub record IsInfo (fi : FileInfo) : Type 0 where
  pub dir_fits : fi.dir_index < 2 ^ 32
  pub size_fits : fi.file_size < 2 ^ 64
  pub words_fit : fi.num_words < 2 ^ 32
  pub name_is : IsText fi.file_name
  pub title_is : IsText fi.title

pub read_string-text :
    (cs rest : List ℕ) → IsText cs → read_string (cs ++ (0 ∷ rest)) ≡ some (cs, rest)
unfolding read_string
read_string-text [] rest h = refl
read_string-text (c ∷ cs) rest (n, h) = rw (n, read_string-text cs rest h) refl

-- The bytes of one file, with any bytes behind.
unfoldable pub info_bytes : FileInfo → List ℕ → List ℕ
info_bytes fi rest =
    digits fi.dir_index
    ++ (fi.file_name
        ++ (0 ∷ (digits fi.file_size ++ (digits fi.num_words ++ (fi.title ++ (0 ∷ rest))))))

pub write_info-bytes : (fi : FileInfo) → IsInfo fi → write_info fi ≡ some (info_bytes fi [])
unfolding write_info info_bytes
write_info-bytes fi h =
    rw
      (
        encode-digits fi.dir_index (omega (arith, h.dir_fits)),
        encode-digits fi.file_size h.size_fits,
        encode-digits fi.num_words (omega (arith, h.words_fit)),
      )
      refl

pub info_bytes-append :
    (fi : FileInfo) (rest : List ℕ) → info_bytes fi [] ++ rest ≡ info_bytes fi rest
unfolding info_bytes
info_bytes-append fi rest = simp append_assoc refl

pub read_info-bytes :
    (fi : FileInfo) (rest : List ℕ) → IsInfo fi → read_info (info_bytes fi rest) ≡ some fi
unfolding read_info info_bytes
read_info-bytes fi rest h =
    let dir : fi.dir_index % 2 ^ 32 ≡ fi.dir_index = omega (arith, h.dir_fits) in
    let words : fi.num_words % 2 ^ 32 ≡ fi.num_words = omega (arith, h.words_fit) in
    rw
      (
        decode-digits fi.dir_index _ (omega (arith, h.dir_fits)),
        read_string-text fi.file_name _ h.name_is,
      )
      (rw
        (
          decode-digits fi.file_size _ h.size_fits,
          decode-digits fi.num_words _ (omega (arith, h.words_fit)),
        )
        (rw (read_string-text fi.title rest h.title_is, dir, words) refl))

-- At each offset stands the file of the same number.
abbrev pub AreReadAt : List ℕ → List FileInfo → List ℕ → Type 0
AreReadAt index [] [] = Unit
AreReadAt index [] (o ∷ offsets) = ⊥
AreReadAt index (fi ∷ infos) [] = ⊥
AreReadAt index (fi ∷ infos) (o ∷ offsets) =
    (read_info (drop o index) ≡ some fi) × AreReadAt index infos offsets

-- The files are written behind whatever is in the index already; from the index, whatever is written behind them,
-- each is read back at the offset that was recorded for it, if its strings have no null and its numbers fit their types.
pub write_file_index-AreReadAt :
    (infos : List FileInfo) (front : List ℕ)
    → All IsInfo infos
    → (bs : List ℕ) × (offsets : List ℕ) × ((write_file_index infos (length front)
          ≡ some (bs, offsets))
        × ((back : List ℕ) → AreReadAt (front ++ (bs ++ back)) infos offsets))
unfolding write_file_index
write_file_index-AreReadAt [] front h = ([], [], (refl, λ back. tt))
write_file_index-AreReadAt (fi ∷ infos) front (h, hs) =
    let own = info_bytes fi [] in
    let (bs, offsets, (e, reads)) = write_file_index-AreReadAt infos (front ++ own) hs in
    let further : write_file_index infos (length front + length own) ≡ some (bs, offsets) =
      subst (λ x. write_file_index infos x ≡ some (bs, offsets)) (length-append front own) e in
    let here : (back : List ℕ)
        → drop (length front) (front ++ ((own ++ bs) ++ back)) ≡ info_bytes fi (bs ++ back) =
      λ back.
        drop-length front _ ∙ (append_assoc own bs back ∙ info_bytes-append fi (bs ++ back)) in
    let whole : (back : List ℕ) → (front ++ own) ++ (bs ++ back) ≡ front ++ ((own ++ bs) ++ back) =
      λ back. simp append_assoc refl in
    (
      own ++ bs,
      length front ∷ offsets,
      (
        rw (write_info-bytes fi h, further) refl,
        λ back. (
          rw (here back) (read_info-bytes fi (bs ++ back) h),
          subst (λ x. AreReadAt x infos offsets) (whole back) (reads back),
        ),
      ),
    )
