-- ===== src/Istream/Words.antt =====
-- The reading of a word that a line ends.
use xerock.Base.{ℕ, ◌≡◌, ◌≢◌, ◌==◌, refl, true, false, List, [], ◌∷◌, ◌++◌, Text, All, arith}
use xerock.Istream.{over, is_space, word, read_word, split_at, ignore}

-- Some characters, none of them white space.
abbrev pub IsWord : Text → Type 0
IsWord w = (w ≢ []) × All (λ c. is_space c ≡ false) w

word-append :
    (d : ℕ) (w r : Text)
    → is_space d ≡ true
    → All (λ c. is_space c ≡ false) w
    → word (w ++ d ∷ r) ≡ (w, d ∷ r)
word-append d [] r b h = rw b
word-append d (c ∷ cs) r b (h, hs) = rw (h, word-append d cs r b hs)

-- White space ends the word.
pub read_word-space :
    (d : ℕ) (w old r : Text)
    → is_space d ≡ true
    → IsWord w
    → read_word old (over (w ++ d ∷ r)) ≡ (w, over (d ∷ r))
unfolding read_word
read_word-space d [] old r b (h, hs) = absurd (h refl)
read_word-space d (c ∷ cs) old r b (ne, (h, hs)) = rw (h, word-append d cs r b hs, h)

pub read_word-IsWord :
    (w old r : Text) → IsWord w → read_word old (over (w ++ 10 ∷ r)) ≡ (w, over (10 ∷ r))
read_word-IsWord w old r h = read_word-space 10 w old r refl h

-- Up to the character that ends what is ignored.
abbrev pub IsField : ℕ → Text → Type 0
IsField d = All (λ c. (c == d) ≡ false)

split_at-field :
    (d : ℕ) (r more : Text) → IsField d r → split_at d (r ++ d ∷ more) ≡ (r, more, true)
split_at-field d [] more h = let same : (d == d) ≡ true = ground arith in rw same
split_at-field d (c ∷ cs) more (h, hs) = rw (h, split_at-field d cs more hs)

pub ignore-field :
    (d : ℕ) (r more : Text) → IsField d r → ignore d (over (r ++ d ∷ more)) ≡ over more
unfolding ignore
ignore-field d r more h = rw (split_at-field d r more h)

-- Fields, each with the character behind it.
abbrev pub fields_text : ℕ → List Text → Text → Text
fields_text d [] more = more
fields_text d (f ∷ fs) more = f ++ d ∷ fields_text d fs more
