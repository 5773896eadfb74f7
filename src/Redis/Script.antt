-- ===== src/Redis/Script.antt =====
-- Lua scripts: a script reads and writes the database and returns a value, or stops with an error
-- and keeps the writes that it made.
use dist_tasks_go.Base.{Option, none, some}

abbrev pub Script : Type 0 → Type 0 → Type 0
Script D A = D → Option A × D

module _ {D A : Type 0} where
  abbrev pub after : {B : Type 0} → Option A × D → (A → Script D B) → Option B × D
  after (some a, d) f = f a d
  after (none, d) f = (none, d)

  infixl 5 ◌>>=◌ ◌>>◌
  abbrev pub ◌>>=◌ : {B : Type 0} → Script D A → (A → Script D B) → Script D B
  ◌>>=◌ m f d = after (m d) f

  abbrev pub ◌>>◌ : {B : Type 0} → Script D A → Script D B → Script D B
  ◌>>◌ m k d = after (m d) (λ _. k)

  abbrev pub pure : A → Script D A
  pure a d = (some a, d)

  abbrev pub raise : Script D A
  raise d = (none, d)

  abbrev pub read : (D → A) → Script D A
  read f d = (some (f d), d)

  abbrev pub run : (D → A × D) → Script D A
  run f d = (some (f d).0, (f d).1)

abbrev pub write : {D : Type 0} → (D → D) → Script D (Unit {0})
write f d = (some tt, f d)
