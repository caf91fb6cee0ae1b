-- ===== src/Tests/Filter.antt =====
-- The commands of filters, run and applied.
use swishxx.Common.{◌≡◌, refl, arith, [], ◌∷◌, ◌++◌, none, some, codes, take}
use swishxx.Filter.{
  escape_filename, unescape_filename, substitute_loop, done, running, target_file_name, rfind,
  no_ext, value,
}
use swishxx.Filter.Escape.{unescape_filename-escape_filename}
use swishxx.Filter.Expand.{expand, substitute_loop-expand, second_extension_never_ends}
use swishxx.Filter.Target.{target_file_name_longer}

substituted :
    substitute_loop 100 (codes "a/b.gz") (codes "zcat %f > @%F") 0 none
    ≡ done (codes "zcat a/b.gz > a/b") (some 14)
unfolding substitute_loop no_ext value rfind
substituted = refl

unescape_filename-escape_filename_example :
    unescape_filename (escape_filename (codes "a b\\c")) ≡ codes "a b\\c"
unescape_filename-escape_filename_example = unescape_filename-escape_filename (codes "a b\\c")

substitute_loop-expand_example :
    substitute_loop 20 (codes "a.gz") (codes "zcat %f > @%F") 0 none
    ≡ expand (codes "a.gz") [] none (codes "zcat %f > @%F")
substitute_loop-expand_example =
    substitute_loop-expand 20 (codes "a.gz") (codes "zcat %f > @%F") (omega arith)

second_extension_never_ends_example :
    substitute_loop 50 (codes "plain") (codes "cat " ++ (37 ∷ 69 ∷ codes " x")) 4 none ≡ running
unfolding rfind
second_extension_never_ends_example =
    second_extension_never_ends 50 (codes "plain") (codes "cat ") (codes " x") none refl

target_file_name_longer_example :
    target_file_name (codes "cp " ++ ((codes "o" ++ (b'k' ∷ [])) ++ (b' ' ∷ codes "-f x"))) 3
    ≡ unescape_filename (take 5 ((codes "o" ++ (b'k' ∷ [])) ++ (b' ' ∷ codes "-f x")))
target_file_name_longer_example =
    target_file_name_longer (codes "cp ") (codes "o") b'k' b' ' (codes "-f x") (refl, (refl, tt))
      refl refl
