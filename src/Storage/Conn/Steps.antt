-- ===== src/Storage/Conn/Steps.antt =====
-- What a successful step of a request says about its parts.
use sharp_oauth.Prelude.{
  ◌≡◌, ◌≢◌, refl, ap, Option, none, some, Result, ok, err, arith, Bool-cases, inl, inr, ok_or,
}
use sharp_oauth.Error.{DbErr, failed}
use sharp_oauth.Storage.{Db, Stmt}
use sharp_oauth.Storage.Conn.{
  Conn, M, lift, continue, ◌>>=◌, convert, relabel, keep_db, tick, on_pool, on_tx, begin, commit,
}

-- The first part succeeded, and so did the rest from there.
pub >>=-ok :
    {E A B : Type 0} (m : M E A) (k : A → M E B) (c : Conn) {b : B} {c' : Conn}
    → (m >>= k) c ≡ (ok b, c')
    → (a : A) × (c₁ : Conn) × (m c ≡ (ok a, c₁)) × (k a c₁ ≡ (ok b, c'))
unfolding ◌>>=◌
>>=-ok {E} {A} {B} m k c {b} {c'} h = go (m c) refl h
  where
    go :
        (o : Result E A × Conn)
        → m c ≡ o
        → continue k o ≡ (ok b, c')
        → (a : A) × (c₁ : Conn) × (m c ≡ (ok a, c₁)) × (k a c₁ ≡ (ok b, c'))
    go (ok a, c₁) e h = (a, c₁, e, h)
    go (err x, c₁) e h = cc (ap (λ (o : Result E B × Conn). o.0) h)

pub lift-ok :
    {E A : Type 0} (r : Result E A) (c : Conn) {a : A} {c' : Conn}
    → lift r c ≡ (ok a, c')
    → (r ≡ ok a) × (c ≡ c')
unfolding lift
lift-ok r c h = (cc h, cc h)

pub lift-err :
    {E A : Type 0} (r : Result E A) (c : Conn) {e : E} {c' : Conn}
    → lift r c ≡ (err e, c')
    → r ≡ err e
unfolding lift
lift-err r c h = cc h

pub convert-ok :
    {E F A : Type 0} (f : E → F) (m : M E A) (c : Conn) {a : A} {c' : Conn}
    → convert f m c ≡ (ok a, c')
    → m c ≡ (ok a, c')
convert-ok {E} {F} {A} f m c {a} {c'} h = go (m c) h
  where
    go : (o : Result E A × Conn) → relabel f o ≡ (ok a, c') → o ≡ (ok a, c')
    go (ok x, c₁) h = ground arith
    go (err x, c₁) h = ground arith

pub ok_or-ok : {E A : Type 0} (e : E) (o : Option A) {a : A} → ok_or e o ≡ ok a → o ≡ some a
ok_or-ok e none h = cc
ok_or-ok e (some a) h = cc

module _ {E A : Type 0} (f : DbErr → E) (s : Stmt A) (c : Conn) {a : A} {c' : Conn} where
  -- A statement in the transaction ran on its tables, and the pool saw nothing.
  pub on_tx-ok : on_tx f s c ≡ (ok a, c') → (s c.tx ≡ (ok a, c'.tx)) × (c'.db ≡ c.db)
  unfolding on_tx
  on_tx-ok h = go (s c.tx) refl
    where
      go : (o : Result DbErr A × Db) → s c.tx ≡ o → (s c.tx ≡ (ok a, c'.tx)) × (c'.db ≡ c.db)
      go (ok x, d) e = ground arith
      go (err x, d) e = ground arith

  pub on_pool-ok : on_pool f s c ≡ (ok a, c') → s c.db ≡ (ok a, c'.db)
  unfolding on_pool
  on_pool-ok h = go (s c.db) refl
    where
      go : (o : Result DbErr A × Db) → s c.db ≡ o → s c.db ≡ (ok a, c'.db)
      go (ok x, d) e = ground arith
      go (err x, d) e = ground arith

module _ {E : Type 0} (f : DbErr → E) (c : Conn) {c' : Conn} where
  pub begin-ok : begin f c ≡ (ok tt, c') → (c'.tx ≡ c.db) × (c'.db ≡ c.db)
  unfolding begin
  begin-ok h = ground arith

  pub commit-ok : commit f c ≡ (ok tt, c') → (c'.db ≡ c.tx)
  unfolding commit
  commit-ok h = ground arith

-- A block that succeeded, taken apart at its first step.
module _ {E B : Type 0} {b : B} {c' : Conn} {P : Type 0} where
  module _ {A : Type 0} (k : A → M E B) (c : Conn) where
    pub after_lift :
        (r : Result E A)
        → (lift r >>= k) c ≡ (ok b, c')
        → ((a : A) → r ≡ ok a → k a c ≡ (ok b, c') → P)
        → P
    unfolding ◌>>=◌
    after_lift (ok a) h next = next a refl h
    after_lift (err e) h next = cc (ap (λ (o : Result E B × Conn). o.0) h)

    pub after_or :
        (e : E) (o : Option A)
        → (lift (ok_or e o) >>= k) c ≡ (ok b, c')
        → ((a : A) → o ≡ some a → k a c ≡ (ok b, c') → P)
        → P
    after_or e o h next = after_lift (ok_or e o) h λ a given. next a (ok_or-ok e o given)

    pub after_tx :
        (f : DbErr → E) (s : Stmt A)
        → (on_tx f s >>= k) c ≡ (ok b, c')
        → ((a : A) (c₁ : Conn) → s c.tx ≡ (ok a, c₁.tx) → c₁.db ≡ c.db → k a c₁ ≡ (ok b, c') → P)
        → P
    after_tx f s h next =
        let (a, c₁, e, rest) = >>=-ok (on_tx f s) k c h in
        let (ran, same) = on_tx-ok f s c e in next a c₁ ran same rest

    pub after_convert :
        {F : Type 0} (f : F → E) (m : M F A)
        → (convert f m >>= k) c ≡ (ok b, c')
        → ((a : A) (c₁ : Conn) → m c ≡ (ok a, c₁) → k a c₁ ≡ (ok b, c') → P)
        → P
    after_convert f m h next =
        let (a, c₁, e, rest) = >>=-ok (convert f m) k c h in next a c₁ (convert-ok f m c e) rest

    pub after_pool :
        (f : DbErr → E) (s : Stmt A)
        → (on_pool f s >>= k) c ≡ (ok b, c')
        → ((a : A) (c₁ : Conn) → s c.db ≡ (ok a, c₁.db) → k a c₁ ≡ (ok b, c') → P)
        → P
    after_pool f s h next =
        let (a, c₁, e, rest) = >>=-ok (on_pool f s) k c h in next a c₁ (on_pool-ok f s c e) rest

  module _ (f : DbErr → E) (k : Unit {0} → M E B) (c : Conn) where
    pub after_begin :
        (begin f >>= k) c ≡ (ok b, c')
        → ((c₁ : Conn) → c₁.tx ≡ c.db → c₁.db ≡ c.db → k tt c₁ ≡ (ok b, c') → P)
        → P
    after_begin h next =
        let (_, c₁, e, rest) = >>=-ok (begin f) k c h in
        let (opened, same) = begin-ok f c e in next c₁ opened same rest

    pub after_commit :
        (commit f >>= k) c ≡ (ok b, c')
        → ((c₁ : Conn) → c₁.db ≡ c.tx → k tt c₁ ≡ (ok b, c') → P)
        → P
    after_commit h next =
        let (_, c₁, e, rest) = >>=-ok (commit f) k c h in next c₁ (commit-ok f c e) rest

-- A block that ended in an error, and a first step that cannot end in that error.
module _ {E A B : Type 0} {e : E} {c' : Conn} {P : Type 0} (k : A → M E B) (c : Conn) where
  pub past_lift :
      (r : Result E A)
      → r ≢ err e
      → (lift r >>= k) c ≡ (err e, c')
      → ((a : A) → r ≡ ok a → k a c ≡ (err e, c') → P)
      → P
  unfolding ◌>>=◌
  past_lift (ok a) other h next = next a refl h
  past_lift (err x) other h next = absurd (other (ap (λ (o : Result E B × Conn). fallen x o.0) h))
    where
      fallen : E → Result E B → Result E A
      fallen d (ok b) = err d
      fallen d (err y) = err y

  pub past_pool :
      (f : DbErr → E) (s : Stmt A)
      → ((x : DbErr) → f x ≢ e)
      → (on_pool f s >>= k) c ≡ (err e, c')
      → ((a : A) (c₁ : Conn) → s c.db ≡ (ok a, c₁.db) → k a c₁ ≡ (err e, c') → P)
      → P
  unfolding ◌>>=◌
  past_pool f s other h next = elim (Bool-cases (c.fails c.calls)) [
    | inl fails ↦ absurd (other failed (ground arith))
    | inr works ↦ go (s c.db) refl (rw works at h)
  ]
    where
      go :
          (o : Result DbErr A × Db)
          → s c.db ≡ o
          → continue k (relabel f (keep_db (tick c) o)) ≡ (err e, c')
          → P
      go (ok a, d) run h = next a (record (tick c) { db = d }) run h
      go (err x, d) run h = absurd (other x (ground arith))
