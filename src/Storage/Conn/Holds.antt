-- ===== src/Storage/Conn/Holds.antt =====
-- Which steps outside a transaction keep a property of the committed tables, however they end.
use sharp_oauth.Prelude.{Bool, true, false, Result, ok, err, Bool-cases, inl, inr, if◌then◌else◌}
use sharp_oauth.Error.{DbErr}
use sharp_oauth.Storage.{Db, Stmt}
use sharp_oauth.Storage.Conn.{
  Conn, M, keep_db, tick, continue, ◌>>=◌, convert, relabel, attempt, kept, on_pool,
}
use sharp_oauth.Storage.Conn.Rollback.{KeepsDb}
use sharp_oauth.Storage.Conn.Preserve.{Safe}

pub record Holds {E A : Type 0} (I : Db → Type 0) (m : M E A) : Type 0 where
  pub at : (c : Conn) → I c.db → I (m c).1.db

module _ {I : Db → Type 0} where
  pub Holds-of_KeepsDb : {E A : Type 0} (m : M E A) → KeepsDb m → Holds I m
  Holds-of_KeepsDb m k = record { at = λ c h. rw (k.at c) h }

  pub Holds-on_pool : {E A : Type 0} (f : DbErr → E) (s : Stmt A) → Safe I s → Holds I (on_pool f s)
  unfolding on_pool
  Holds-on_pool {E} {A} f s safe = record {
    at = λ c h. elim (Bool-cases (c.fails c.calls)) [
      | inl fails ↦ rw fails h
      | inr works ↦ rw works (go c (s c.db) (safe c.db h))
    ];
  }
    where
      go : (c : Conn) (o : Result DbErr A × Db) → I o.1 → I (relabel f (keep_db (tick c) o)).1.db
      go c (ok a, d) h = h
      go c (err e, d) h = h

  pub Holds-convert : {E F A : Type 0} (f : E → F) (m : M E A) → Holds I m → Holds I (convert f m)
  Holds-convert {E} {F} {A} f m p = record { at = λ c h. go (m c) (p.at c h) }
    where
      go : (o : Result E A × Conn) → I o.1.db → I (relabel f o).1.db
      go (ok a, c) h = h
      go (err e, c) h = h

  pub Holds-attempt : {E F A : Type 0} (m : M E A) → Holds I m → Holds I (attempt {F = F} m)
  Holds-attempt {E} {F} {A} m p = record { at = λ c h. go (m c) (p.at c h) }
    where
      go : (o : Result E A × Conn) → I o.1.db → I (kept {F = F} o).1.db
      go (r, c) h = h

  pub Holds-bind :
      {E A B : Type 0} (m : M E A) (k : A → M E B)
      → Holds I m
      → ((a : A) → Holds I (k a))
      → Holds I (m >>= k)
  unfolding ◌>>=◌
  Holds-bind {E} {A} {B} m k pm pk = record { at = λ c h. go (m c) (pm.at c h) }
    where
      go : (o : Result E A × Conn) → I o.1.db → I (continue k o).1.db
      go (ok a, c) h = (pk a).at c h
      go (err e, c) h = h

  pub Holds-if :
      {E A : Type 0} (b : Bool) (m n : M E A) → Holds I m → Holds I n → Holds I (if b then m else n)
  Holds-if true m n p q = p
  Holds-if false m n p q = q
