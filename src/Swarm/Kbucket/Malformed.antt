-- ===== src/Swarm/Kbucket/Malformed.antt =====
-- swarm/kbucket.py: texts that `int(text, 16)` refuses.
use Prim.Native.Char.{code}
use anp_edge_swarm.Base.{
  ℕ, leb, eqb, String, ◌≡◌, ◌⊎◌, inl, inr, ◌∙◌, refl, sym, ap, eqb_iff, Bool, true, false, not,
  ◌&&◌, ◌||◌, Option, none, some, Bool-cases, Option-cases, arith,
}
use anp_edge_swarm.Dict.{is_some}
use anp_edge_swarm.Swarm.Kbucket.{
  hex_digit, is_space, Part, read_other, read_char, hex_value, drop_blanks, drop_char, drop_prefix,
  parse_hex,
}

-- A printable ASCII character that no number has: no digit, sign, underscore or x.
abbrev pub is_foreign : ℕ → Bool
is_foreign c =
    leb 33 c
    && (leb c 126
        && (not (is_some (hex_digit c))
            && (not (eqb c b'_')
                && (not (eqb c b'+')
                    && (not (eqb c b'-') && (not (eqb c b'x') && not (eqb c b'X')))))))

abbrev pub has_foreign : String → Bool
has_foreign String.[] = false
has_foreign (String.◌∷◌ c s) = is_foreign (code c) || has_foreign s

read_char-foreign : (p : Part) (n c : ℕ) → is_foreign c ≡ true → read_char p n c ≡ none
unfolding read_char
read_char-foreign p n c h = elim (Option-cases (hex_digit c)) [
  | inl e ↦ rw (e, read_char) (other p)
  | inr (d, e) ↦ absurd (ground (arith, h, e))
]
  where
    other : (p : Part) → read_other p n c ≡ none
    other Part.start = refl
    other Part.score = refl
    other Part.digit = ground (arith, h)
    other Part.blank = ground (arith, h)

hex_value-foreign : (p : Part) (n : ℕ) (s : String) → has_foreign s ≡ true → hex_value p n s ≡ none
unfolding hex_value
hex_value-foreign p n String.[] h = absurd (cc)
hex_value-foreign p n (String.◌∷◌ c s) h = elim (Option-cases (read_char p n (code c))) [
  | inl e ↦ rw (e, hex_value) refl
  | inr ((p', n'), e) ↦ elim (Bool-cases (is_foreign (code c))) [
    | inl f ↦
        let no : ◌≡◌ {A = Option (Part × ℕ)} none (some (p', n')) =
          sym (read_char-foreign p n (code c) f) ∙ e in
        absurd (cc)
    | inr f ↦ rw (e, hex_value) (hex_value-foreign p' n' s (ground (arith, h, f)))
  ]
]

rest : (a b : Bool) → a ≡ false → a || b ≡ true → b ≡ true
rest true b e h = absurd (cc)
rest false b e h = h

drop_blanks-foreign : (s : String) → has_foreign s ≡ true → has_foreign (drop_blanks s) ≡ true
unfolding drop_blanks
drop_blanks-foreign String.[] h = h
drop_blanks-foreign (String.◌∷◌ c s) h = elim (Bool-cases (is_space (code c))) [
  | inl e ↦ rw e (drop_blanks-foreign s (ground (arith, h, e)))
  | inr e ↦ rw e h
]

drop_char-foreign :
    (a : ℕ) (s : String)
    → is_foreign a ≡ false
    → has_foreign s ≡ true
    → has_foreign (drop_char a s) ≡ true
unfolding drop_char
drop_char-foreign a String.[] k h = h
drop_char-foreign a (String.◌∷◌ c s) k h = elim (Bool-cases (eqb (code c) a)) [
  | inl e ↦
      let same : code c ≡ a = (eqb_iff (code c) a).0 e in
      let plain : is_foreign (code c) ≡ false = ap is_foreign same ∙ k in
      rw e (rest (is_foreign (code c)) (has_foreign s) plain h)
  | inr e ↦ rw e h
]

drop_prefix-foreign : (s : String) → has_foreign s ≡ true → has_foreign (drop_prefix s) ≡ true
unfolding drop_prefix hex_digit
drop_prefix-foreign String.[] h = h
drop_prefix-foreign (String.◌∷◌ c String.[]) h = h
drop_prefix-foreign (String.◌∷◌ c (String.◌∷◌ d s)) h =
    elim (Bool-cases (eqb (code c) b'0' && (eqb (code d) b'x' || eqb (code d) b'X'))) [
      | inl e ↦
          let zero : code c ≡ 48 = ground (arith, e) in
          let x : (code d ≡ 120) ⊎ (code d ≡ 88) = ground (arith, e) in
          let no_c : is_foreign (code c) ≡ false = ap is_foreign zero in
          let no_d : is_foreign (code d) ≡ false = elim x [
            | inl f ↦ ap is_foreign f
            | inr f ↦ ap is_foreign f
          ] in
          rw e (
            drop_char-foreign b'_' s refl (
              rest (is_foreign (code d)) (has_foreign s) no_d
                (rest (is_foreign (code c)) (has_foreign (String.◌∷◌ d s)) no_c h)))
      | inr e ↦ rw e h
    ]

-- A text with a character that no number has is refused, wherever it stands.
pub parse_hex-foreign : (s : String) → has_foreign s ≡ true → parse_hex s ≡ none
unfolding parse_hex hex_digit
parse_hex-foreign s h =
    hex_value-foreign Part.start 0 (drop_prefix (drop_char b'+' (drop_blanks s))) (
      drop_prefix-foreign (drop_char b'+' (drop_blanks s))
        (drop_char-foreign b'+' (drop_blanks s) refl (drop_blanks-foreign s h)))
