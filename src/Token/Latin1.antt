-- ===== src/Token/Latin1.antt =====
-- src/iso8859-1.cpp and src/iso8859-1.h: the ASCII equivalent of each ISO 8859-1 character.
use swishxx.Common.{ℕ, ◌<◌, ◌≡◌, refl, arith, List, [], ◌∷◌, Bool, true, ◌&&◌, ltb, get_or}
use swishxx.Common.Bits.{passes_below, passes_below-each}

unfoldable pub iso8859_1_map : List ℕ
iso8859_1_map =
    32 ∷ 32 ∷ 32 ∷ 32 ∷ 32 ∷ 32 ∷ 32 ∷ 32 ∷ 32 ∷ 9 ∷ 10 ∷ 11 ∷ 12 ∷ 13 ∷ 32 ∷ 32 ∷ 32 ∷ 32 ∷ 32 ∷ 32
    ∷ 32 ∷ 32 ∷ 32 ∷ 32 ∷ 32 ∷ 32 ∷ 32 ∷ 32 ∷ 32 ∷ 32 ∷ 32 ∷ 32 ∷ 32 ∷ 33 ∷ 34 ∷ 35 ∷ 36 ∷ 37 ∷ 38
    ∷ 39 ∷ 40 ∷ 41 ∷ 42 ∷ 43 ∷ 44 ∷ 45 ∷ 46 ∷ 47 ∷ 48 ∷ 49 ∷ 50 ∷ 51 ∷ 52 ∷ 53 ∷ 54 ∷ 55 ∷ 56 ∷ 57
    ∷ 58 ∷ 59 ∷ 60 ∷ 61 ∷ 62 ∷ 63 ∷ 64 ∷ 65 ∷ 66 ∷ 67 ∷ 68 ∷ 69 ∷ 70 ∷ 71 ∷ 72 ∷ 73 ∷ 74 ∷ 75 ∷ 76
    ∷ 77 ∷ 78 ∷ 79 ∷ 80 ∷ 81 ∷ 82 ∷ 83 ∷ 84 ∷ 85 ∷ 86 ∷ 87 ∷ 88 ∷ 89 ∷ 90 ∷ 91 ∷ 92 ∷ 93 ∷ 94 ∷ 95
    ∷ 96 ∷ 97 ∷ 98 ∷ 99 ∷ 100 ∷ 101 ∷ 102 ∷ 103 ∷ 104 ∷ 105 ∷ 106 ∷ 107 ∷ 108 ∷ 109 ∷ 110 ∷ 111
    ∷ 112 ∷ 113 ∷ 114 ∷ 115 ∷ 116 ∷ 117 ∷ 118 ∷ 119 ∷ 120 ∷ 121 ∷ 122 ∷ 123 ∷ 124 ∷ 125 ∷ 126 ∷ 32
    ∷ 32 ∷ 32 ∷ 32 ∷ 32 ∷ 32 ∷ 32 ∷ 32 ∷ 32 ∷ 32 ∷ 32 ∷ 32 ∷ 32 ∷ 32 ∷ 32 ∷ 32 ∷ 32 ∷ 32 ∷ 32 ∷ 32
    ∷ 32 ∷ 32 ∷ 32 ∷ 32 ∷ 32 ∷ 32 ∷ 32 ∷ 32 ∷ 32 ∷ 32 ∷ 32 ∷ 32 ∷ 32 ∷ 32 ∷ 33 ∷ 32 ∷ 35 ∷ 32 ∷ 32
    ∷ 124 ∷ 32 ∷ 32 ∷ 32 ∷ 32 ∷ 34 ∷ 32 ∷ 45 ∷ 32 ∷ 32 ∷ 32 ∷ 32 ∷ 50 ∷ 51 ∷ 39 ∷ 32 ∷ 32 ∷ 46 ∷ 32
    ∷ 49 ∷ 32 ∷ 34 ∷ 32 ∷ 32 ∷ 32 ∷ 63 ∷ 65 ∷ 65 ∷ 65 ∷ 65 ∷ 65 ∷ 65 ∷ 69 ∷ 67 ∷ 69 ∷ 69 ∷ 69 ∷ 69
    ∷ 73 ∷ 73 ∷ 73 ∷ 73 ∷ 68 ∷ 78 ∷ 79 ∷ 79 ∷ 79 ∷ 79 ∷ 79 ∷ 32 ∷ 79 ∷ 85 ∷ 85 ∷ 85 ∷ 85 ∷ 89 ∷ 32
    ∷ 115 ∷ 97 ∷ 97 ∷ 97 ∷ 97 ∷ 97 ∷ 97 ∷ 101 ∷ 99 ∷ 101 ∷ 101 ∷ 101 ∷ 101 ∷ 105 ∷ 105 ∷ 105 ∷ 105
    ∷ 100 ∷ 110 ∷ 111 ∷ 111 ∷ 111 ∷ 111 ∷ 111 ∷ 32 ∷ 111 ∷ 117 ∷ 117 ∷ 117 ∷ 117 ∷ 121 ∷ 32 ∷ 121
    ∷ []

unfoldable pub iso8859_1_to_ascii : ℕ → ℕ
unfolding iso8859_1_map
iso8859_1_to_ascii c = get_or iso8859_1_map c 32

in_range : ℕ → Bool
in_range c = ltb 8 (iso8859_1_to_ascii c) && ltb (iso8859_1_to_ascii c) 127

table_in_range : passes_below in_range 256 ≡ true
unfolding in_range passes_below iso8859_1_to_ascii
table_in_range = refl

in_range_lem :
    (c : ℕ) → in_range c ≡ true → (8 < iso8859_1_to_ascii c) × (iso8859_1_to_ascii c < 127)
unfolding in_range
in_range_lem c h = ground arith

-- Every byte becomes a printable ASCII character or white space, never a null.
pub iso8859_1_to_ascii-range :
    (c : ℕ) → c < 256 → (8 < iso8859_1_to_ascii c) × (iso8859_1_to_ascii c < 127)
iso8859_1_to_ascii-range c h = in_range_lem c (passes_below-each in_range 256 table_in_range c h)
