-- ===== src/Storage/Conn.antt =====
-- The connection of one request: what the pool and the open transaction see, and which database
-- calls fail. src/oauth/services/token.rs begins and commits its transactions explicitly; one that
-- is dropped without a commit is rolled back, so `tx` is only ever read back by `commit`.
pub mod Steps
pub mod Rollback
pub mod Preserve
pub mod Holds
use sharp_oauth.Prelude.{ℕ, suc, ◌≡◌, refl, Bool, true, false, Result, ok, err, if◌then◌else◌}
use sharp_oauth.Error.{DbErr, failed}
use sharp_oauth.Storage.{Db, Stmt}

-- `fails n` says whether the request's call number `n` to the database fails. A failed call
-- changes nothing.
pub record Conn : Type 0 where
  pub db : Db
  pub tx : Db
  pub calls : ℕ
  pub fails : ℕ → Bool

abbrev pub M : Type 0 → Type 0 → Type 0
M E A = Conn → Result E A × Conn

unfoldable pub pure : {E A : Type 0} → A → M E A
pure a c = (ok a, c)

unfoldable pub throw : {E A : Type 0} → E → M E A
throw e c = (err e, c)

unfoldable pub lift : {E A : Type 0} → Result E A → M E A
lift r c = (r, c)

abbrev pub continue : {E A B : Type 0} → (A → M E B) → Result E A × Conn → Result E B × Conn
continue f (ok a, c) = f a c
continue f (err e, c) = (err e, c)

-- `map_err`, and the `From` conversions of `?`.
abbrev pub relabel : {E F A : Type 0} → (E → F) → Result E A × Conn → Result F A × Conn
relabel f (ok a, c) = (ok a, c)
relabel f (err e, c) = (err (f e), c)

abbrev pub convert : {E F A : Type 0} → (E → F) → M E A → M F A
convert f m c = relabel f (m c)

abbrev pub kept : {E F A : Type 0} → Result E A × Conn → Result F (Result E A) × Conn
kept (r, c) = (ok r, c)

-- `match m.await { … }`: the outcome as a value.
abbrev pub attempt : {E F A : Type 0} → M E A → M F (Result E A)
attempt m c = kept (m c)

abbrev pub tick : Conn → Conn
tick c = record c { calls = suc c.calls }

abbrev pub keep_db : {A : Type 0} → Conn → Result DbErr A × Db → Result DbErr A × Conn
keep_db c (r, d) = (r, record c { db = d })

abbrev pub keep_tx : {A : Type 0} → Conn → Result DbErr A × Db → Result DbErr A × Conn
keep_tx c (r, d) = (r, record c { tx = d })

-- A statement on the pool: committed at once.
unfoldable pub on_pool : {E A : Type 0} → (DbErr → E) → Stmt A → M E A
on_pool f s c =
    if c.fails c.calls then (err (f failed), tick c) else relabel f (keep_db (tick c) (s c.db))

-- A statement inside the transaction.
unfoldable pub on_tx : {E A : Type 0} → (DbErr → E) → Stmt A → M E A
on_tx f s c =
    if c.fails c.calls then (err (f failed), tick c) else relabel f (keep_tx (tick c) (s c.tx))

unfoldable pub begin : {E : Type 0} → (DbErr → E) → M E (Unit {0})
begin f c =
    if c.fails c.calls then (err (f failed), tick c) else (ok tt, record (tick c) { tx = c.db })

unfoldable pub commit : {E : Type 0} → (DbErr → E) → M E (Unit {0})
commit f c =
    if c.fails c.calls then (err (f failed), tick c) else (ok tt, record (tick c) { db = c.tx })

infixl 5 ◌>>=◌ ◌>>◌
-- Opening this opens the primitive steps too.
unfoldable pub ◌>>=◌ : {E A B : Type 0} → M E A → (A → M E B) → M E B
unfolding pure throw lift on_pool on_tx begin commit
◌>>=◌ m f c = continue f (m c)

abbrev pub ◌>>◌ : {E A B : Type 0} → M E A → M E B → M E B
m >> k = m >>= λ _. k
