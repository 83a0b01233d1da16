-- ===== src/Ata/Bytes.antt =====
-- The bytes of a sector as words, on the way to the controller and back.
use tempos.Base.{
  ℕ, zero, suc, ◌+◌, ◌*◌, ◌/◌, ◌%◌, ◌<◌, ◌≡◌, refl, ap, ◌∙◌, inl, inr, Bool-cases, List, [], ◌∷◌,
  ◌++◌, arith, length, length-append, ◌==◌, ltb, if◌then◌else◌,
}
use tempos.Ata.Ports.{Action, outb, outw, bword, send_words, read_words}

-- The loop that reads `n` words puts the low byte of each word first.
pub read_words-bytes :
    (n j : ℕ) (inw buf : ℕ → ℕ)
    → j < n
    → (read_words n inw buf (2 * j) ≡ inw j % 256)
      × (read_words n inw buf (2 * j + 1) ≡ inw j / 256 % 256)
unfolding read_words
read_words-bytes zero j inw buf below = absurd (omega arith)
read_words-bytes (suc n) j inw buf below = elim (Bool-cases (j == n)) [
  | inl last ↦ ground arith
  | inr before ↦ ground (arith, read_words-bytes n j inw buf)
]

-- the words among what is sent
abbrev pub words : List Action → List ℕ
words [] = []
words (outw w port ∷ sent) = w ∷ words sent
words (other ∷ sent) = words sent

-- the word at an index, 0 behind the last one
abbrev pub word_at : List ℕ → ℕ → ℕ
word_at [] i = 0
word_at (w ∷ ws) zero = w
word_at (w ∷ ws) (suc i) = word_at ws i

word_at-last : (ws : List ℕ) (w : ℕ) → word_at (ws ++ (w ∷ [])) (length ws) ≡ w
word_at-last [] w = refl
word_at-last (v ∷ ws) w = word_at-last ws w

word_at-before : (ws : List ℕ) (w j : ℕ) → j < length ws → word_at (ws ++ (w ∷ [])) j ≡ word_at ws j
word_at-before [] w j below = absurd (omega arith)
word_at-before (v ∷ ws) w zero below = refl
word_at-before (v ∷ ws) w (suc j) below = word_at-before ws w j (omega arith)

words-append :
    (xs : List Action) (w port : ℕ) → words (xs ++ (outw w port ∷ [])) ≡ words xs ++ (w ∷ [])
words-append [] w port = refl
words-append (outw v p ∷ xs) w port = ap (λ (t : List ℕ). v ∷ t) (words-append xs w port)
words-append (outb v p ∷ xs) w port = words-append xs w port
words-append (Action.wake e ∷ xs) w port = words-append xs w port

length-send_words : (n port : ℕ) (sector : ℕ → ℕ) → length (words (send_words n port sector)) ≡ n
unfolding send_words
length-send_words zero port sector = refl
length-send_words (suc n) port sector =
    rw
      (
        words-append (send_words n port sector) (bword (sector (2 * n)) (sector (2 * n + 1))) port,
        length-append (words (send_words n port sector))
            (bword (sector (2 * n)) (sector (2 * n + 1)) ∷ []),
        length-send_words n port sector,
      )
      (omega arith)

send_words-word :
    (n port : ℕ) (sector : ℕ → ℕ) (j : ℕ)
    → j < n
    → word_at (words (send_words n port sector)) j ≡ bword (sector (2 * j)) (sector (2 * j + 1))
unfolding send_words
send_words-word zero port sector j below = absurd (omega arith)
send_words-word (suc n) port sector j below =
    let ws = words (send_words n port sector) in
    let w = bword (sector (2 * n)) (sector (2 * n + 1)) in
    let many : length ws ≡ n = length-send_words n port sector in
    rw (words-append (send_words n port sector) w port) (elim (Bool-cases (j == n)) [
      | inl last ↦
          let at : j ≡ n = ground arith in
          rw at (ap (word_at (ws ++ (w ∷ []))) (omega arith) ∙ word_at-last ws w)
      | inr before ↦
          word_at-before ws w j (ground arith) ∙ send_words-word n port sector j (ground arith)
    ])

-- the two bytes of a word that is sent
bword-bytes :
    (low high : ℕ)
    → low < 256
    → high < 256
    → (bword low high % 256 ≡ low)
      × (bword low high / 256 % 256 ≡ (if ltb low 128 then high else 255))
unfolding bword
bword-bytes low high l h = elim (Bool-cases (ltb low 128)) [
  | inl small ↦ rw small (omega arith, omega arith)
  | inr big ↦ rw big (omega arith, omega arith)
]

-- A sector that is written and read back word by word: every byte of an even position comes back, and the byte behind it
-- where the first one is below 128. Behind a byte from 128 on the byte comes back as 255.
pub read_words-send_words :
    (n port : ℕ) (sector buf : ℕ → ℕ) (j : ℕ)
    → ((i : ℕ) → sector i < 256)
    → j < n
    → (read_words n (word_at (words (send_words n port sector))) buf (2 * j) ≡ sector (2 * j))
      × (read_words n (word_at (words (send_words n port sector))) buf (2 * j + 1)
          ≡ (if ltb (sector (2 * j)) 128 then sector (2 * j + 1) else 255))
read_words-send_words n port sector buf j bytes below =
    let (low, high) = read_words-bytes n j (word_at (words (send_words n port sector))) buf below in
    let word = send_words-word n port sector j below in
    let (even, odd) =
      bword-bytes (sector (2 * j)) (sector (2 * j + 1)) (bytes (2 * j)) (bytes (2 * j + 1)) in
    (low ∙ ap (λ (w : ℕ). w % 256) word ∙ even, high ∙ ap (λ (w : ℕ). w / 256 % 256) word ∙ odd)
