-- ===== src/Gc/Change/Tests.antt =====
-- Tests in front of a transaction, and a transaction that leaves the stored collection alone.
use git_on_cloudflare.Base.{◌≡◌, refl, sym, subst, Bool, true, false, if◌then◌else◌, Option}
use git_on_cloudflare.Repo.State.{RepoState, GcOperation}
use git_on_cloudflare.Gc.Change.{StoreChange, keeps}

-- A test in front of a transaction.
module _ {R : Type 0} (m : Option GcOperation) where
  abbrev pub Changes : RepoState × R → Type 0
  Changes r = StoreChange m r.0.gc_operation

  pub tested :
      (b : Bool) (x y : RepoState × R)
      → Changes x
      → (b ≡ false → Changes y)
      → Changes (if b then x else y)
  tested true x y f g = f
  tested false x y f g = g refl

pub same_store : {m n : Option GcOperation} → n ≡ m → StoreChange m n
same_store {m} {n} e = subst (λ k. StoreChange m k) (sym e) keeps
