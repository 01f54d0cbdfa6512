-- ===== src/Commands/Wscat/Lines.antt =====
-- Which lines of the terminal `wscat` of cmd/wscat/wscat.go sends.
use chain_api.Common.{String, Bool, true, false, ◌≡◌, refl, ap, List, [], ◌∷◌, All, length}
use text.Mathlib.TextLemmas.{nil-append}
use chain_api.Commands.Wscat.{up_to_newline, joined_to, read_string, typed}

-- A chunk that begins with a line.
abbrev pub HasLine : String → Type 0
HasLine chunk = (up_to_newline chunk).1 ≡ true

abbrev pub line_of : String → String
line_of chunk = (up_to_newline chunk).0

abbrev lines_of : List String → List String
lines_of [] = []
lines_of (chunk ∷ rest) = line_of chunk ∷ lines_of rest

joined_lem :
    (rest : List String) (p : String × Bool) (next : String → String × List String)
    → p.1 ≡ true
    → joined_to "" rest p next ≡ (p.0, rest)
joined_lem rest (s, true) next h = rw (nil-append s)
joined_lem rest (s, false) next h = cc

-- Where every read of the terminal gives a line at least, a message is the first line of a read: the
-- lines that come after it in the same read are never sent.
pub typed-lines :
    (chunks : List String) → All HasLine chunks → typed (length chunks) chunks ≡ lines_of chunks
unfolding typed read_string
typed-lines [] h = refl
typed-lines (chunk ∷ rest) (h, hs) =
    rw (joined_lem rest (up_to_newline chunk) (λ part. read_string part rest) h)
      (ap (λ ls. line_of chunk ∷ ls) (typed-lines rest hs))

two_lines_test : typed 2 ("a\nb\n" ∷ "c\n" ∷ []) ≡ "a\n" ∷ "c\n" ∷ []
unfolding typed read_string up_to_newline
two_lines_test = refl
