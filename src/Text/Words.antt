-- ===== src/Text/Words.antt =====
-- Words and white space: a text of words survives `split`, and normalising twice is normalising
-- once. The bridge compares normalised texts to recognise the echo of what it forwarded.
use meshcore_control_bridge.Common.{
  ◌≡◌, refl, ap, ◌∙◌, false, List, [], ◌∷◌, ◌++◌, arith, All, Bool-cases, All-append, inl, inr,
}
use mathlib.Core.List.{append-nil, append_assoc}
use meshcore_control_bridge.Text.Utf8.{Text}
use meshcore_control_bridge.Text.Space.{
  is_space, is_empty, lstrip, rstrip, strip, split_from, split, join, join_rest,
  normalized_bridge_text,
}

abbrev pub NoSpace : Text → Type 0
NoSpace = All (λ c. is_space c ≡ false)

-- A word has a code point and no white space.
abbrev pub IsWord : Text → Type 0
IsWord w = (is_empty w ≡ false) × NoSpace w

split_from-words : (w s : Text) → NoSpace w → All IsWord (split_from w s)
unfolding split_from
split_from-words [] [] h = tt
split_from-words (d ∷ w) [] h = ((refl, h), tt)
split_from-words [] (c ∷ s) h = elim (Bool-cases (is_space c)) [
  | inl space ↦ rw space (split_from-words [] s tt)
  | inr letter ↦ rw letter (split_from-words (c ∷ []) s (letter, tt))
]
split_from-words (d ∷ w) (c ∷ s) h = elim (Bool-cases (is_space c)) [
  | inl space ↦ rw space ((refl, h), split_from-words [] s tt)
  | inr letter ↦
      rw letter
        (split_from-words (d ∷ w ++ c ∷ []) s (All-append _ (d ∷ w) (c ∷ []) h (letter, tt)))
]

-- Whatever the text, `split` returns words.
split-words : (s : Text) → All IsWord (split s)
unfolding split
split-words s = split_from-words [] s tt

split_from-append : (w x r : Text) → NoSpace x → split_from w (x ++ r) ≡ split_from (w ++ x) r
unfolding split_from
split_from-append w [] r h = rw append-nil
split_from-append w (c ∷ x) r h = rw (h.0, split_from-append (w ++ c ∷ []) x r h.1, append_assoc)

split_from-join_rest :
    (w : Text) (ws : List Text) → IsWord w → All IsWord ws → split_from w (join_rest ws) ≡ w ∷ ws
unfolding split_from is_space
split_from-join_rest [] ws h k = cc (h.0)
split_from-join_rest (c ∷ w) [] h k = refl
split_from-join_rest (c ∷ w) (x ∷ ws) h k =
    ap (◌∷◌ (c ∷ w))
      (split_from-append [] x (join_rest ws) k.0.1 ∙ split_from-join_rest x ws k.0 k.1)

-- Splitting gives the joined words back.
pub split-join : (ws : List Text) → All IsWord ws → split (join ws) ≡ ws
unfolding split split_from
split-join [] h = refl
split-join (w ∷ ws) h =
    split_from-append [] w (join_rest ws) h.0.1 ∙ split_from-join_rest w ws h.0 h.1

rstrip-append : (x t : Text) → NoSpace x → rstrip t ≡ t → rstrip (x ++ t) ≡ x ++ t
unfolding rstrip
rstrip-append [] t h e = e
rstrip-append (c ∷ x) t h e = ground (arith, rstrip-append x t h.1 e)

rstrip-join_rest : (ws : List Text) → All IsWord ws → rstrip (join_rest ws) ≡ join_rest ws
unfolding rstrip
rstrip-join_rest [] h = refl
rstrip-join_rest ([] ∷ ws) h = cc (h.0.0)
rstrip-join_rest ((c ∷ w) ∷ ws) h =
    let e = rstrip-append (c ∷ w) (join_rest ws) h.0.1 (rstrip-join_rest ws h.1) in ground arith

pub strip-join : (ws : List Text) → All IsWord ws → strip (join ws) ≡ join ws
unfolding strip lstrip
strip-join [] h = unfold rstrip in refl
strip-join ([] ∷ ws) h = cc (h.0.0)
strip-join ((c ∷ w) ∷ ws) h =
    rw h.0.1.0 (rstrip-append (c ∷ w) (join_rest ws) h.0.1 (rstrip-join_rest ws h.1))

-- Normalising a text a second time changes nothing.
pub normalized_bridge_text_idem :
    (s : Text) → normalized_bridge_text (normalized_bridge_text s) ≡ normalized_bridge_text s
unfolding normalized_bridge_text
normalized_bridge_text_idem s =
    let k = split-words (strip s) in
    rw (strip-join (split (strip s)) k, split-join (split (strip s)) k)
