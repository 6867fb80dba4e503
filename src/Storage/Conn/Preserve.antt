-- ===== src/Storage/Conn/Preserve.antt =====
-- Which steps keep a property of the tables, of the committed ones and of those of the open
-- transaction, however they end.
use sharp_oauth.Prelude.{
  ◌≡◌, refl, Bool, true, false, Option, none, some, Result, ok, err, Bool-cases, inl, inr, ok_or,
  if◌then◌else◌,
}
use sharp_oauth.Error.{DbErr}
use sharp_oauth.Storage.{Db, Stmt, select, insert_unless}
use sharp_oauth.Storage.Conn.{
  Conn, M, keep_db, keep_tx, tick, pure, throw, lift, continue, ◌>>=◌, convert, relabel, attempt,
  kept, on_pool, on_tx, begin, commit,
}

-- The statement keeps the property.
abbrev pub Safe : {A : Type 0} → (Db → Type 0) → Stmt A → Type 0
Safe I s = (d : Db) → I d → I (s d).1

pub insert-Safe :
    (I : Db → Type 0) (clash : Bool) (d d' : Db)
    → I d
    → (clash ≡ false → I d')
    → I (insert_unless clash d d').1
insert-Safe I true d d' h h' = h
insert-Safe I false d d' h h' = h' refl

pub record Preserves {E A : Type 0} (I : Db → Type 0) (m : M E A) : Type 0 where
  pub at : (c : Conn) → I c.db → I c.tx → I (m c).1.db × I (m c).1.tx

module _ {I : Db → Type 0} where
  pub Preserves-pure : {E A : Type 0} (a : A) → Preserves I (pure {E = E} a)
  unfolding pure
  Preserves-pure a = record { at = λ c h k. (h, k) }

  pub Preserves-throw : {E A : Type 0} (e : E) → Preserves I (throw {A = A} e)
  unfolding throw
  Preserves-throw e = record { at = λ c h k. (h, k) }

  pub Preserves-lift : {E A : Type 0} (r : Result E A) → Preserves I (lift r)
  unfolding lift
  Preserves-lift r = record { at = λ c h k. (h, k) }

  pub Preserves-on_pool :
      {E A : Type 0} (f : DbErr → E) (s : Stmt A) → Safe I s → Preserves I (on_pool f s)
  unfolding on_pool
  Preserves-on_pool {E} {A} f s safe = record {
    at = λ c h k. elim (Bool-cases (c.fails c.calls)) [
      | inl fails ↦ rw fails (h, k)
      | inr works ↦ rw works (go c (s c.db) (safe c.db h) k)
    ];
  }
    where
      go :
          (c : Conn) (o : Result DbErr A × Db)
          → I o.1
          → I c.tx
          → I (relabel f (keep_db (tick c) o)).1.db × I (relabel f (keep_db (tick c) o)).1.tx
      go c (ok a, d) h k = (h, k)
      go c (err e, d) h k = (h, k)

  pub Preserves-on_tx :
      {E A : Type 0} (f : DbErr → E) (s : Stmt A) → Safe I s → Preserves I (on_tx f s)
  unfolding on_tx
  Preserves-on_tx {E} {A} f s safe = record {
    at = λ c h k. elim (Bool-cases (c.fails c.calls)) [
      | inl fails ↦ rw fails (h, k)
      | inr works ↦ rw works (go c (s c.tx) h (safe c.tx k))
    ];
  }
    where
      go :
          (c : Conn) (o : Result DbErr A × Db)
          → I c.db
          → I o.1
          → I (relabel f (keep_tx (tick c) o)).1.db × I (relabel f (keep_tx (tick c) o)).1.tx
      go c (ok a, d) h k = (h, k)
      go c (err e, d) h k = (h, k)

  pub Preserves-begin : {E : Type 0} (f : DbErr → E) → Preserves I (begin f)
  unfolding begin
  Preserves-begin f = record {
    at = λ c h k. elim (Bool-cases (c.fails c.calls)) [
      | inl fails ↦ rw fails (h, k)
      | inr works ↦ rw works (h, h)
    ];
  }

  pub Preserves-commit : {E : Type 0} (f : DbErr → E) → Preserves I (commit f)
  unfolding commit
  Preserves-commit f = record {
    at = λ c h k. elim (Bool-cases (c.fails c.calls)) [
      | inl fails ↦ rw fails (h, k)
      | inr works ↦ rw works (k, k)
    ];
  }

  pub Preserves-convert :
      {E F A : Type 0} (f : E → F) (m : M E A) → Preserves I m → Preserves I (convert f m)
  Preserves-convert {E} {F} {A} f m p = record { at = λ c h k. go (m c) (p.at c h k) }
    where
      go :
          (o : Result E A × Conn)
          → I o.1.db × I o.1.tx
          → I (relabel f o).1.db × I (relabel f o).1.tx
      go (ok a, c) h = h
      go (err e, c) h = h

  pub Preserves-attempt :
      {E F A : Type 0} (m : M E A) → Preserves I m → Preserves I (attempt {F = F} m)
  Preserves-attempt {E} {F} {A} m p = record { at = λ c h k. go (m c) (p.at c h k) }
    where
      go :
          (o : Result E A × Conn)
          → I o.1.db × I o.1.tx
          → I (kept {F = F} o).1.db × I (kept {F = F} o).1.tx
      go (r, c) h = h

  pub Preserves-bind :
      {E A B : Type 0} (m : M E A) (k : A → M E B)
      → Preserves I m
      → ((a : A) → Preserves I (k a))
      → Preserves I (m >>= k)
  unfolding ◌>>=◌
  Preserves-bind {E} {A} {B} m k pm pk = record { at = λ c h t. go (m c) (pm.at c h t) }
    where
      go :
          (o : Result E A × Conn)
          → I o.1.db × I o.1.tx
          → I (continue k o).1.db × I (continue k o).1.tx
      go (ok a, c) h = (pk a).at c h.0 h.1
      go (err e, c) h = h

  -- What follows a query of the transaction may use that its result comes from such tables.
  pub Preserves-found :
      {E A B : Type 0} (f : DbErr → E) (g : Db → A) (k : A → M E B)
      → ((d : Db) → I d → Preserves I (k (g d)))
      → Preserves I (on_tx f (select g) >>= k)
  unfolding ◌>>=◌
  Preserves-found f g k next = record {
    at = λ c h t. elim (Bool-cases (c.fails c.calls)) [
      | inl fails ↦ rw fails (h, t)
      | inr works ↦ rw works ((next c.tx t).at (record (tick c) { tx = c.tx }) h t)
    ];
  }

  pub Preserves-given :
      {E A B : Type 0} (e : E) (o : Option A) (k : A → M E B)
      → ((a : A) → o ≡ some a → Preserves I (k a))
      → Preserves I (lift (ok_or e o) >>= k)
  unfolding ◌>>=◌
  Preserves-given e none k next = record { at = λ c h t. (h, t) }
  Preserves-given e (some a) k next = next a refl

  pub Preserves-if :
      {E A : Type 0} (b : Bool) (m n : M E A)
      → Preserves I m
      → Preserves I n
      → Preserves I (if b then m else n)
  Preserves-if true m n p q = p
  Preserves-if false m n p q = q
