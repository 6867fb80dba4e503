-- ===== src/Storage/Conn/Rollback.antt =====
-- Which steps leave the committed tables alone, and which do so when they end in a given error.
use sharp_oauth.Prelude.{◌≡◌, refl, ◌∙◌, Result, ok, err, arith, Bool-cases, inl, inr}
use sharp_oauth.Error.{DbErr}
use sharp_oauth.Storage.{Db, Stmt}
use sharp_oauth.Storage.Conn.{
  Conn, M, pure, throw, lift, continue, convert, relabel, ◌>>=◌, ◌>>◌, on_pool, on_tx, begin,
  commit,
}

-- The step commits nothing.
pub record KeepsDb {E A : Type 0} (m : M E A) : Type 0 where
  pub at : (c : Conn) → (m c).1.db ≡ c.db

pub KeepsDb-pure : {E A : Type 0} (a : A) → KeepsDb {E = E} (pure a)
unfolding pure
KeepsDb-pure a = record { at = λ c. refl }

pub KeepsDb-throw : {E A : Type 0} (e : E) → KeepsDb {A = A} (throw e)
unfolding throw
KeepsDb-throw e = record { at = λ c. refl }

pub KeepsDb-lift : {E A : Type 0} (r : Result E A) → KeepsDb (lift r)
unfolding lift
KeepsDb-lift r = record { at = λ c. refl }

pub KeepsDb-on_tx : {E A : Type 0} (f : DbErr → E) (s : Stmt A) → KeepsDb (on_tx f s)
unfolding on_tx
KeepsDb-on_tx {E} {A} f s = record { at = λ c. go c (s c.tx) refl }
  where
    go : (c : Conn) (o : Result DbErr A × Db) → s c.tx ≡ o → (on_tx f s c).1.db ≡ c.db
    go c (ok x, d) e = ground arith
    go c (err x, d) e = ground arith

-- A query on the pool.
pub KeepsDb-on_pool :
    {E A : Type 0} (f : DbErr → E) (s : Stmt A) → ((d : Db) → (s d).1 ≡ d) → KeepsDb (on_pool f s)
unfolding on_pool
KeepsDb-on_pool {E} {A} f s reads = record { at = λ c. go c (s c.db) refl }
  where
    go : (c : Conn) (o : Result DbErr A × Db) → s c.db ≡ o → (on_pool f s c).1.db ≡ c.db
    go c (ok x, d) e = ground (arith, reads c.db)
    go c (err x, d) e = ground (arith, reads c.db)

pub KeepsDb-begin : {E : Type 0} (f : DbErr → E) → KeepsDb (begin f)
unfolding begin
KeepsDb-begin f = record { at = λ c. ground arith }

pub KeepsDb-bind :
    {E A B : Type 0} (m : M E A) (k : A → M E B)
    → KeepsDb m
    → ((a : A) → KeepsDb (k a))
    → KeepsDb (m >>= k)
unfolding ◌>>=◌
KeepsDb-bind {E} {A} {B} m k km kk = record { at = λ c. go c (m c) (km.at c) }
  where
    go : (c : Conn) (o : Result E A × Conn) → o.1.db ≡ c.db → (continue k o).1.db ≡ c.db
    go c (ok a, c₁) h = (kk a).at c₁ ∙ h
    go c (err e, c₁) h = h

pub KeepsDb-convert : {E F A : Type 0} (f : E → F) (m : M E A) → KeepsDb m → KeepsDb (convert f m)
KeepsDb-convert {E} {F} {A} f m k = record { at = λ c. go c (m c) (k.at c) }
  where
    go : (c : Conn) (o : Result E A × Conn) → o.1.db ≡ c.db → (relabel f o).1.db ≡ c.db
    go c (ok a, c₁) h = h
    go c (err e, c₁) h = h

-- After a step that commits nothing, the rest runs on the same tables, or nothing has changed.
pub after_kept :
    {E A B : Type 0} (P : Db → Type 0) (m : M E A) (k : A → M E B) (c : Conn)
    → KeepsDb m
    → P c.db
    → ((a : A) (c₁ : Conn) → m c ≡ (ok a, c₁) → c₁.db ≡ c.db → P (k a c₁).1.db)
    → P ((m >>= k) c).1.db
unfolding ◌>>=◌
after_kept {E} {A} {B} P m k c km still next = go (m c) refl (km.at c)
  where
    go : (o : Result E A × Conn) → m c ≡ o → o.1.db ≡ c.db → P (continue k o).1.db
    go (ok a, c₁) e same = next a c₁ e same
    go (err x, c₁) e same = rw same still

-- If the step ends in an error of the kind `P`, the committed tables are as they were.
pub record RollsBack {E A : Type 0} (P : E → Type 0) (m : M E A) : Type 0 where
  pub at : (c : Conn) (e : E) → (m c).0 ≡ err e → P e → (m c).1.db ≡ c.db

module _ {E : Type 0} {P : E → Type 0} where
  pub RollsBack-of_KeepsDb : {A : Type 0} (m : M E A) → KeepsDb m → RollsBack P m
  RollsBack-of_KeepsDb m k = record { at = λ c e h p. k.at c }

  pub RollsBack-bind :
      {A B : Type 0} (m : M E A) (k : A → M E B)
      → KeepsDb m
      → ((a : A) → RollsBack P (k a))
      → RollsBack P (m >>= k)
  unfolding ◌>>=◌
  RollsBack-bind {A} {B} m k km kk = record { at = λ c e. go c e (m c) (km.at c) }
    where
      go :
          (c : Conn) (e : E) (o : Result E A × Conn)
          → o.1.db ≡ c.db
          → (continue k o).0 ≡ err e
          → P e
          → (continue k o).1.db ≡ c.db
      go c e (ok a, c₁) same h p = (kk a).at c₁ e h p ∙ same
      go c e (err x, c₁) same h p = same

  -- A commit before an error of another kind.
  pub RollsBack-commit-throw :
      {A : Type 0} (f : DbErr → E) (e : E) → ¬ P e → RollsBack {A = A} P (commit f >> throw e)
  unfolding ◌>>=◌
  RollsBack-commit-throw f e other = record {
    at = λ c x h p. elim (Bool-cases (c.fails c.calls)) [
      | inl failed ↦ ground arith
      | inr done ↦ let same : e ≡ x = ground arith in absurd (other (rw same p))
    ];
  }

  -- A commit before a result.
  pub RollsBack-commit-pure :
      {A : Type 0} (f : DbErr → E) (a : A) → RollsBack P (commit f >> pure a)
  unfolding ◌>>=◌
  RollsBack-commit-pure f a = record { at = λ c e h p. ground arith }

pub ruleset keeps_rules =
    (KeepsDb-pure, KeepsDb-throw, KeepsDb-lift, KeepsDb-on_tx, KeepsDb-begin, KeepsDb-bind)
