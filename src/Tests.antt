-- ===== src/Tests.antt =====
-- The definitions run on concrete inputs, and each theorem applied at one.
mod Charset
mod OptionStream
mod Filter
mod ThreadPool
mod Merge
mod Machine
mod IndexFile
mod Xml
use swishxx.Common.{
  ℕ, ◌+◌, ◌%◌, ◌^◌, get_elem?, ◌≤◌, ◌<◌, ◌≡◌, ◌≢◌, ◌↔◌, ◌⊎◌, refl, arith, List, [], ◌∷◌, ◌++◌, none,
  some, codes, true, false, length, All, leb, ltb, ◌&&◌, map,
}
use mathlib.Core.Option
use swishxx.Vlq.{encode, decode}
use swishxx.Vlq.Decode.{first, decode-encode}
use swishxx.Posting.{File, new_file, IsFile, write_entry, has_meta_id}
use swishxx.Posting
use swishxx.Posting.Reader.{skip_word, files, calc_size}
use swishxx.Posting.Entry.{files-write_entry}
use swishxx.Posting.Size.{calc_size-files}
use swishxx.Posting.Positions.{positions, add_all, sums, positions_third}
use swishxx.Common.Ctype.{is_digit, is_punct, tolower}
use swishxx.Stem.{is_vowel, word_size, ends_with_cvc, replace_suffix}
use swishxx.Stem.Word.{stem_word, all_alphabetic, steps, start}
use swishxx.Stem.Tables.{rules_5a}
use swishxx.Stem.Replace.{IsLower, IsWord}
use swishxx.Stem.Final.{steps-IsWord}
use swishxx.Stem.FinalE.{rules_5a_cvc}
use swishxx.Stem.Size.{pairs, kinds_of, word_size-pairs}
use swishxx.Word.{
  is_word_char, is_word_begin_char, is_word_end_char, scan, scan_char, is_ok_word,
  word_max_consec_vowels, word_max_consec_consonants, word_max_consec_puncts, word_max_consec_same,
}
use swishxx.Word.Acronym.{IsAcronym}
use swishxx.Word.Ok.{IsPronounceable, is_ok_word_cases}
use swishxx.Word.Runs.{scan_runs, IsVowel, IsConsonant, IsPunct, is_letter}
use swishxx.Word.Match.{move_if_match, move_if_match_iff, Begins}
use swishxx.Token.Latin1.{iso8859_1_to_ascii, iso8859_1_to_ascii-range}
use swishxx.Query.{Index, is_too_frequent}
use swishxx.Query.Node.{Node, nil, cons, word_node, or_node, and_node, not_node}
use swishxx.Query.Parser.{ok, fresh, ◌>>=◌, combine, parse_query2}
use swishxx.Query.Total
use swishxx.Query.Total.{Verdict, parse_query2_total}
use swishxx.Query.Combine.{to_nodes, operand, and_all, ands, and_all_keeps, or_drops_first}
use swishxx.Token.{tt_or}
use swishxx.Eval.Results.{SearchResults, find, add, int_div}
use swishxx.Eval.Near.{is_near, near_loop}
use swishxx.Eval.Nearness.{some_within, near_loop_lem}
use swishxx.Eval.NearFiles.{near_files, not_near_files}
use swishxx.Eval.Join.{near_files-find, near_rank, lookup}
use swishxx.Eval.Skipped.{IsResult, not_near_files_skips}
use swishxx.Eval.Laws.{IsMap, or_rank, not_rank}
use swishxx.Eval.And.{copies, and_results-copies}
use swishxx.Eval.Rank.{AreRanks, sum, and_results-find}
use swishxx.Eval.Boolean.{eval-or_node, eval-not_node}
use swishxx.Eval.Semantics.{has, finds, IsPlain}
use swishxx.Eval.Refines.{eval-finds}
use swishxx.Eval.{eval, and_results, last_of, but_last}
use swishxx.Indexer.{Options, State, index_word, index_words}
use swishxx.Indexer.Counts.{IsTally, index_word-IsTally}
use swishxx.Indexer.Cut.{feed, runs, index_words-runs}
use swishxx.Indexer.Meta.{
  MetaOptions, find_meta, find_meta-again, AreNumberedFrom, find_meta-AreNumberedFrom,
}
use swishxx.Indexer.Title.{tidy_title, tidy_title-bounded}

-- An index of ten files, in which every word is in the files 1 and 4.
abbrev file_at : ℕ → ℕ → List ℕ → File
file_at i r ps = record {
  index = i;
  occurrences = length ps;
  rank = r;
  meta_ids = [];
  pos_deltas = ps;
}

abbrev two_children : List SearchResults
two_children = ((1, 30) ∷ []) ∷ ((1, 60) ∷ (2, 5) ∷ []) ∷ []

abbrev two_files : List File
two_files = file_at 1 30 (3 ∷ 40 ∷ []) ∷ file_at 4 50 (7 ∷ []) ∷ []

abbrev demo : Index
demo = record {
  find_word = λ w. two_files ∷ [];
  find_prefix = λ w. two_files ∷ [];
  is_stop_word = λ w. false;
  find_meta = λ w. none;
  num_files = 10;
  word_files_max = 100;
  word_percent_max = 100;
}

abbrev any_word : Node
any_word = word_node (codes "any") (two_files ∷ []) 0xffff

abbrev plain : Options
plain = record { is_stop_word = λ w. false; store_word_positions = true }

abbrev nothing : State
nothing = record {
  num_total_words = 0;
  num_indexed_words = 0;
  word_pos = 0;
  suspend_indexing_count = 0;
  current = 0;
  num_words = 0;
  words = [];
}

encode_300 : encode 300 ≡ some (0x82 ∷ 0x2c ∷ [])
unfolding encode
encode_300 = refl

stem_relational : stem_word (codes "relational") ≡ some (codes "relat")
unfolding stem_word
stem_relational = refl

or_finds : eval demo 10 (or_node any_word any_word) [] ≡ (1, 60) ∷ (4, 100) ∷ []
unfolding eval is_too_frequent has_meta_id add
or_finds = refl

word_indexed :
    State.num_indexed_words (index_words plain (codes "(the cat) computer, and") 0xffff nothing) ≡ 1
unfolding index_words is_word_char iso8859_1_to_ascii index_word is_word_end_char is_word_begin_char
word_indexed = refl

parse_query2_total_example :
    Verdict
      (codes "cat and (dog or not mouse*)")
      (parse_query2 200 demo 0xffff fresh (Total.start (codes "cat and (dog or not mouse*)")))
parse_query2_total_example =
    parse_query2_total demo 200 0xffff fresh (codes "cat and (dog or not mouse*)") (omega arith)

decode-encode_example :
    (bs : List ℕ) × (encode 300 ≡ some bs)
    × (1 ≤ length bs)
    × (length bs ≤ 10)
    × (decode (bs ++ (0x80 ∷ [])) ≡ some (300, 0x80 ∷ []))
    × (first (bs ++ (0x80 ∷ [])) ≢ 0x80)
decode-encode_example = decode-encode 300 (0x80 ∷ []) (omega arith)

abbrev cat_file : File
cat_file = record {
  index = 2;
  occurrences = 2;
  rank = 70;
  meta_ids = 5 ∷ [];
  pos_deltas = 3 ∷ 200 ∷ [];
}

cat_file-IsFile : IsFile cat_file
cat_file-IsFile = record {
  index_fits = omega arith;
  occurrences_fits = omega arith;
  rank_fits = omega arith;
  meta_ids_fit = (omega arith, tt);
  meta_ids_differ = (refl, tt);
  pos_deltas_fit = (omega arith, (omega arith, tt));
}

files-write_entry_example :
    (bs : List ℕ) × (write_entry (codes "cat") (cat_file ∷ cat_file ∷ []) ≡ some bs)
    × ((Posting.◌>>=◌ (skip_word (bs ++ (1 ∷ []))) files) ≡ some (cat_file ∷ cat_file ∷ []))
files-write_entry_example =
    files-write_entry (codes "cat") cat_file (cat_file ∷ []) (1 ∷ [])
      ((λ e. omega (arith, e)), ((λ e. omega (arith, e)), ((λ e. omega (arith, e)), tt)))
      (cat_file-IsFile, (cat_file-IsFile, tt))

near_files-find_example :
    find (near_files 10 0xffff 0xffff 5 two_files two_files []) 4
    ≡ near_rank 10 0xffff 0xffff (lookup two_files 4) (lookup two_files 4) (find [] 4)
near_files-find_example =
    near_files-find 10 0xffff 0xffff 5 0 0 two_files two_files [] 4 (omega arith)
      (omega arith, (omega arith, tt)) (omega arith, (omega arith, tt))

near_loop_lem_example :
    near_loop 4 10 3 80 (40 ∷ 50 ∷ []) (2 ∷ [])
    ≡ some_within 10 (sums 3 (40 ∷ 50 ∷ [])) (sums 80 (2 ∷ []))
near_loop_lem_example =
    near_loop_lem 4 10 3 80 (40 ∷ 50 ∷ []) (2 ∷ []) (omega arith)
      (omega arith, omega arith, (omega arith, omega arith, omega arith))
      (omega arith, omega arith, omega arith)

index_words-runs_example :
    index_words plain (codes "cats, dogs") 0xffff nothing
    ≡ feed plain 0xffff (runs (map iso8859_1_to_ascii (codes "cats, dogs"))) nothing
index_words-runs_example = index_words-runs plain (codes "cats, dogs") 0xffff nothing

calc_size-files_example :
    calc_size (1 ∷ 2 ∷ 3 ∷ 0x80 ∷ []) ≡ Option.map length (files (1 ∷ 2 ∷ 3 ∷ 0x80 ∷ []))
calc_size-files_example = calc_size-files (1 ∷ 2 ∷ 3 ∷ 0x80 ∷ [])

index_word-IsTally_example : IsTally (index_word plain (codes "computer") 5 nothing)
index_word-IsTally_example = index_word-IsTally plain (codes "computer") 5 nothing (tt, refl)

and_results-find_example :
    ((j : ℕ) (d : SearchResults)
      → get_elem? (two_children) j ≡ some d
      → find d 1 ≡ none
      → find (and_results two_children []) 1 ≡ none)
    × ((vs : List ℕ)
        → AreRanks 1 two_children vs
        → find (and_results two_children []) 1 ≡ some (int_div (sum vs % 2 ^ 32) 3))
and_results-find_example =
    and_results-find ((1, 30) ∷ []) (((1, 60) ∷ (2, 5) ∷ []) ∷ []) [] 1
      ((omega arith, tt), ((omega arith, (omega arith, tt)), tt))

scan_runs_example :
    (All IsVowel (codes "ue") → length (codes "ue") ≤ word_max_consec_vowels)
    × (All IsConsonant (codes "ue") → length (codes "ue") ≤ word_max_consec_consonants)
    × (All IsPunct (codes "ue") → length (codes "ue") ≤ word_max_consec_puncts)
    × ((c : ℕ)
        → is_letter c ≡ true
        → All (λ d. d ≡ c) (codes "ue")
        → length (codes "ue") ≤ word_max_consec_same + 1)
unfolding scan scan_char is_digit is_punct is_vowel tolower
scan_runs_example = scan_runs (codes "q") (codes "ue") (codes "ry") refl

-- A letter comes four times, with punctuation between.
no_in_a_row : is_ok_word (codes "a-a-a-a") ≡ false
unfolding is_ok_word
no_in_a_row = refl

-- Five vowels in a row are not too many.
eieio_is_ok : is_ok_word (codes "eieio") ≡ true
unfolding is_ok_word
eieio_is_ok = refl

is_ok_word_cases_example :
    (is_ok_word (codes "queue's") ≡ true)
    ↔ (IsAcronym (codes "queue's") ⊎ IsPronounceable (codes "queue's"))
is_ok_word_cases_example = is_ok_word_cases (codes "queue's") (omega arith)

-- A word of 25 letters has no place for its null.
too_long : stem_word (codes "abcdefghijklmnopqrstuvwxy") ≡ none
unfolding stem_word
too_long = refl

word_size-pairs_example : word_size (codes "anything") ≡ pairs (kinds_of (codes "anything"))
word_size-pairs_example = word_size-pairs (codes "anything")

positions_third_example : positions (add_all [] (1 ∷ 20 ∷ 300 ∷ [])) ≡ 1 ∷ 20 ∷ 301 ∷ []
positions_third_example = positions_third 1 20 300 (omega arith) (omega arith) (omega arith)

rules_5a_cvc_example : replace_suffix (start (codes "rate")) rules_5a ≡ (502, start (codes "rat"))
unfolding word_size ends_with_cvc
rules_5a_cvc_example = rules_5a_cvc (codes "rat") refl refl

or_drops_first_example :
    (ands 0xffff (operand nil any_word) (not_node any_word ∷ []) >>= λ r.
    combine tt_or r (operand nil any_word) 0xffff 0xffff)
      (Total.start [])
    ≡ ok
        (operand nil (or_node (and_node (to_nodes (not_node any_word ∷ []))) any_word))
        (Total.start [])
or_drops_first_example =
    or_drops_first 0xffff any_word (not_node any_word) [] any_word (Total.start [])

-- The two words are near each other in the file 4.
near_there : is_near 10 (file_at 4 50 (7 ∷ [])) (file_at 4 50 (8 ∷ [])) ≡ true
unfolding is_near
near_there = refl

not_near_files_skips_example :
    IsResult (not_near_files 10 0xffff 0xffff two_files (file_at 4 50 (8 ∷ []) ∷ []) []) 4
unfolding has_meta_id
not_near_files_skips_example =
    not_near_files_skips 10 0xffff 0xffff (file_at 1 30 (3 ∷ 40 ∷ [])) (file_at 4 50 (7 ∷ []))
      (file_at 4 50 (8 ∷ [])) [] [] [] refl refl (omega arith) refl tt

abbrev all_names : MetaOptions
all_names = record { is_excluded = λ n. false; includes_any = false; include = λ n. none }

eval-finds_example :
    has (eval demo 10 (and_node (cons any_word (cons (not_node any_word) nil))) []) 4
    ≡ finds demo 10 (and_node (cons any_word (cons (not_node any_word) nil))) 4
unfolding IsPlain
eval-finds_example =
    eval-finds demo 10 (and_node (cons any_word (cons (not_node any_word) nil))) 4 (tt, (tt, tt))
