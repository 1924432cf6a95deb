-- ===== src/Keyboard/Typing.antt =====
-- Several keys in a row (keyboard.c).
use ece391_os.Common.{ℕ, ◌≤◌, ◌≡◌, ◌≢◌, refl, ◌∙◌, ap, arith, Option, none, some, List, [], ◌∷◌}
use ece391_os.Keyboard.{Console, handle_key_press, enter_key}
use ece391_os.Keyboard.Line.{IsReady, line, edit, handle_key_press-Edited}

-- A burst of keys.
pub type_keys : ℕ → List ℕ → Console → Option Console
type_keys fuel [] c = some c
type_keys fuel (k ∷ ks) c = elim (handle_key_press fuel k c) [
  | none ↦ none
  | some c' ↦ type_keys fuel ks c'
]

abbrev pub NoEnter : List ℕ → Type 0
NoEnter [] = Unit {0}
NoEnter (k ∷ ks) = (k ≢ enter_key) × NoEnter ks

unfoldable pub edit_all : List ℕ → List ℕ → List ℕ
edit_all [] l = l
edit_all (k ∷ ks) l = edit_all ks (edit k l)

-- Any keys but enter, however many, leave in the buffer the line that they edit.
pub type_keys-edit_all :
    (fuel : ℕ) (ks : List ℕ) (c : Console)
    → 3 ≤ fuel
    → IsReady c
    → NoEnter ks
    → (c' : Console) × (type_keys fuel ks c ≡ some c')
      × IsReady c'
      × (line c' ≡ edit_all ks (line c))
unfolding type_keys edit_all
type_keys-edit_all fuel [] c h v n = (c, refl, v, refl)
type_keys-edit_all fuel (k ∷ ks) c h v n =
    let (c1, eq, e) = handle_key_press-Edited fuel h c v k in
    let ready : IsReady c1 = record {
      whole = e.whole;
      index = ground (arith, n.0, e.index);
      enabled = e.enabled;
      screen = e.screen;
    } in
    let (c2, eq2, v2, l2) = type_keys-edit_all fuel ks c1 h ready n.1 in
    (c2, ground (arith, eq, eq2), v2, l2 ∙ ap (edit_all ks) e.text)
