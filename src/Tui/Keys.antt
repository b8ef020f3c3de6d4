-- ===== src/Tui/Keys.antt =====
-- src/cli/tui/input.rs: the keys of the terminal interface.
use bksd.Base.{
  ℕ, Bool, true, false, not, ◌&&◌, Option, none, some, List, [], ◌∷◌, ◌==◌, nat_eq, any,
  if◌then◌else◌, ◌≡◌, refl,
}
use bksd.Tui.{Action, quit, up, down, left, right, select, back, refresh, show_history}

-- The bits of `KeyModifiers`; `NONE` has none of them.
pub data Modifier : Type 0 where
  shift control alt super_key hyper meta : Modifier

abbrev pub is_same : Modifier → Modifier → Bool
is_same shift shift = true
is_same control control = true
is_same alt alt = true
is_same super_key super_key = true
is_same hyper hyper = true
is_same meta meta = true
is_same _ _ = false

-- `self.contains(other)`, the other last.
abbrev pub contains : List Modifier → List Modifier → Bool
contains modifiers [] = true
contains modifiers (m ∷ others) = any (is_same m) modifiers && contains modifiers others

-- `char_key` has the code point; `other_key` stands for the keys that the code does not name.
pub data KeyCode : Type 0 where
  char_key function_key : ℕ → KeyCode
  esc_key up_key down_key left_key right_key enter_key other_key : KeyCode

pub record KeyEvent : Type 0 where
  pub code : KeyCode
  pub modifiers : List Modifier

-- `other_event` stands for resizes, the mouse and the rest.
pub data InputEvent : Type 0 where
  key : KeyEvent → InputEvent
  other_event : InputEvent

-- The arms for characters, in the order of the match.
abbrev char_action : ℕ → List Modifier → Option Action
char_action c modifiers =
    if c == b'q'
    then some quit
    else if c == b'c' && contains modifiers (control ∷ [])
    then some quit
    else if c == b'k'
    then some up
    else if c == b'j'
    then some down
    else if c == b'h' && not (contains modifiers [])
    then some left
    else if c == b'l'
    then some right
    else if c == b' '
    then some select
    else if c == b'r'
    then some refresh
    else if c == b'h'
    then some show_history
    else none

unfoldable pub key_action : KeyCode → List Modifier → Option Action
key_action (char_key c) modifiers = char_action c modifiers
key_action esc_key modifiers = some back
key_action up_key modifiers = some up
key_action down_key modifiers = some down
key_action left_key modifiers = some left
key_action right_key modifiers = some right
key_action enter_key modifiers = some select
key_action (function_key n) modifiers = if n == 5 then some refresh else none
key_action other_key modifiers = none

abbrev pub handle_key_event : KeyEvent → Option Action
handle_key_event event = key_action event.code event.modifiers

unfoldable pub handle_event : InputEvent → Option Action
handle_event (key event) = handle_key_event event
handle_event other_event = none

history_key :
    handle_event (key (record { code = char_key b'h'; modifiers = shift ∷ [] })) ≡ some show_history
unfolding handle_event key_action
history_key = refl
