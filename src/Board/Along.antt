-- ===== src/Board/Along.antt =====
-- What the programs of app/src/main.c do to the state, put together from what their calls do.
use hologram_nrf9151_gps_tra.Common.{Bool, true, false, if◌then◌else◌}
use hologram_nrf9151_gps_tra.Board.{Platform, Sys, M, ◌>>=◌, ◌>>◌, pure, gets}

module _ (p : Platform) where
  pub record Preorder : Type 1 where
    pub rel : Sys p → Sys p → Type 0
    pub rel-refl : (s : Sys p) → rel s s
    pub rel-trans : (s t u : Sys p) → rel s t → rel t u → rel s u

  -- The state after the program stands in the relation to the state before it.
  pub record Along {A : Type 0} (r : Preorder) (m : M p A) : Type 0 where
    pub along : (s : Sys p) → r.rel s (m s).1

module _ {p : Platform} (r : Preorder p) where
  pure-rel : {A : Type 0} (a : A) (s : Sys p) → r.rel s (pure a s).1
  unfolding pure
  pure-rel a s = r.rel-refl s

  gets-rel : {A : Type 0} (f : Sys p → A) (s : Sys p) → r.rel s (gets f s).1
  unfolding gets
  gets-rel f s = r.rel-refl s

module _ {p : Platform} {r : Preorder p} where
  pub bind-Along :
      {A B : Type 0} {m : M p A} {f : A → M p B}
      → Along p r m
      → ((a : A) → Along p r (f a))
      → Along p r (m >>= f)
  unfolding ◌>>=◌
  bind-Along {m} {f} c d = record {
    along =
        λ s. r.rel-trans s (m s).1 (f (m s).0 (m s).1).1 (c.along s) ((d (m s).0).along (m s).1);
  }

  pub then-Along :
      {A B : Type 0} {m : M p A} {k : M p B} → Along p r m → Along p r k → Along p r (m >> k)
  unfolding ◌>>◌
  then-Along {m} {k} c d = record {
    along = λ s. r.rel-trans s (m s).1 (k (m s).1).1 (c.along s) (d.along (m s).1);
  }

  pub pure-Along : {A : Type 0} (a : A) → Along p r (pure a)
  pure-Along a = record { along = pure-rel r a }

  pub gets-Along : {A : Type 0} (f : Sys p → A) → Along p r (gets f)
  gets-Along f = record { along = gets-rel r f }

  pub if-Along :
      {A : Type 0} {m k : M p A} (b : Bool)
      → Along p r m
      → Along p r k
      → Along p r (if b then m else k)
  if-Along true c d = c
  if-Along false c d = d

module _ {p : Platform} {r q : Preorder p} (w : (s t : Sys p) → r.rel s t → q.rel s t) where
  -- What stands in a relation stands in a wider one.
  pub widen-Along : {A : Type 0} {m : M p A} → Along p r m → Along p q m
  widen-Along {m} c = record { along = λ s. w s (m s).1 (c.along s) }
