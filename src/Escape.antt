-- ===== src/Escape.antt =====
-- The stack of what the Escape key closes: frontend/src/hooks/useEscapeStack.ts. A callback is
-- known by a number; the last one pushed is the first of the list.
use volum.Base.{
  ◌==◌, if◌then◌else◌, get_elem?, any, is_empty, ℕ, ◌≡◌, refl, Bool, true, false, ◌&&◌, not, Option,
  none, some, List, [], ◌∷◌, arith,
}

pub record Escape : Type 0 where
  pub stack : List ℕ
  pub listening : Bool

-- Mounting pushes the callback, if there is one, and makes sure of the listener.
pub mount : Option ℕ → Escape → Escape
mount none s = s
mount (some on_close) s = record { stack = on_close ∷ s.stack; listening = true }

-- `stack.splice(stack.indexOf(onClose), 1)`: the one that was pushed first goes.
pub remove_first_pushed : ℕ → List ℕ → List ℕ
remove_first_pushed on_close [] = []
remove_first_pushed on_close (c ∷ cs) =
    let rest = c ∷ remove_first_pushed on_close cs in
    if any (λ d. d == on_close) cs then rest else if c == on_close then cs else rest

-- Unmounting removes the callback, and the listener if none is left.
pub unmount : Option ℕ → Escape → Escape
unfolding remove_first_pushed
unmount none s = s
unmount (some on_close) s =
    let left = remove_first_pushed on_close s.stack in
    record { stack = left; listening = s.listening && not (is_empty left) }

-- The callback that a pressed Escape key runs.
pub close_of : Escape → Option ℕ
close_of s = if s.listening then get_elem? s.stack 0 else none

-- A callback that is new on the stack: unmounting it leaves the stack as it was.
unmount-mount :
    (on_close : ℕ) (s : Escape)
    → any (λ d. d == on_close) s.stack ≡ false
    → Escape.stack (unmount (some on_close) (mount (some on_close) s)) ≡ s.stack
unfolding unmount mount remove_first_pushed
unmount-mount on_close s h =
    let same : (on_close == on_close) ≡ true = ground arith in rw (h, same) refl
