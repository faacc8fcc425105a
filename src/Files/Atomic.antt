-- ===== src/Files/Atomic.antt =====
-- Write of internal/state/state.go replaces the file whole, or leaves it as it was.
pub mod Write
use frridge.Base.{
  ◌≡◌, refl, sym, subst, ◌∙◌, ap, ◌⊎◌, inl, inr, ◌<>◌, String, Bool, true, false, Option, none,
  some, List, [], ◌∷◌, Result, ok, err, ◌==◌, ℕ, if◌then◌else◌, Option-cases, arith, eq_refl,
}
use frridge.Base.Dict.{Dict, lookup, insert, erase, lookup-insert}
use frridge.Base.Program.{
  Keeps, Program, ◌>>=◌, ◌>>◌, continue, pure, raise, lift, within, sequence-Keeps, within-Keeps,
  within-ok, pure-Keeps, raise-Keeps,
}
use frridge.State.{LabState}
use frridge.Files.Disk.{
  Faults, F, FileError, Disk, Presence, present, absent, stat_fault, dir_of, touch, write_file,
  stat, remove, at_step, rename, create_temp, lookup-erase, torn_write,
}
use frridge.Files.Snapshots.{Codec, find_mode, fill_and_rename, then_remove, write, given}

module _ (f : Faults) (path : String) where
  -- The file's content, or none when there is no file.
  pub record Contains (content : Option String) (d : Disk) : Type 0 where
    pub is_content : lookup path d.files ≡ content

  insert_other :
      (other text : String) (m : Dict String)
      → (other == path) ≡ false
      → lookup path (insert other text m) ≡ lookup path m
  insert_other other text m apart =
      lookup-insert other path text m ∙ ap (λ b. if b then some text else lookup path m) apart

  torn_other :
      (other : String) (left : Option String) (m : Dict String)
      → (other == path) ≡ false
      → lookup path (torn_write other left m) ≡ lookup path m
  torn_other other none m apart = refl
  torn_other other (some left) m apart = insert_other other left m apart

  module _ (c : Option String) where
    pub touch-Contains : Keeps (Contains c) (touch f)
    unfolding touch
    touch-Contains d has = record { is_content = ground (arith, has.is_content) }

    pub stat-Contains : (other : String) → Keeps (Contains c) (stat f other)
    unfolding stat
    stat-Contains other d has = record { is_content = ground (arith, has.is_content) }

    pub find_mode-Contains : (answer : Presence) → Keeps (Contains c) (find_mode answer)
    unfolding find_mode pure raise
    find_mode-Contains present d has = has
    find_mode-Contains absent d has = has
    find_mode-Contains (stat_fault e) d has = has

    pub write_file-Contains :
        (other text : String)
        → (other == path) ≡ false
        → Keeps (Contains c) (write_file f other text)
    unfolding write_file
    write_file-Contains other text apart d has = record {
      is_content = ground (
        arith,
        has.is_content,
        insert_other other text d.files apart,
        torn_other other (f.torn d.clock) d.files apart,
      );
    }

    pub remove-Contains :
        (other : String) → (other == path) ≡ false → Keeps (Contains c) (remove f other)
    unfolding remove
    remove-Contains other apart d has = record {
      is_content = ground (arith, has.is_content, lookup-erase other path d.files apart);
    }

    pub create_temp-Contains :
        (dir : String)
        → ((n : ℕ) → (f.temporary n dir == path) ≡ false)
        → Keeps (Contains c) (create_temp f dir)
    unfolding create_temp
    create_temp-Contains dir apart d has = record {
      is_content = ground (
        arith,
        has.is_content,
        insert_other (f.temporary d.clock dir) "" d.files (apart d.clock),
      );
    }

module _ (f : Faults) (path : String) (old new : Option String) where
  -- From a disk as `P` says, the file has its old content or its new one afterwards, and its new one
  -- after a success.
  pub record IsAtomic (P : Disk → Type 0) (m : F (Unit {0})) : Type 0 where
    pub keeps_whole : (d : Disk) → P d → Contains f path old (m d).1 ⊎ Contains f path new (m d).1
    pub installs : (d : Disk) → P d → (m d).0 ≡ ok tt → Contains f path new (m d).1

  continue-whole :
      {A : Type 0} (Q : A → Disk → Type 0) (r : Result FileError A) (g : A → F (Unit {0}))
      (d : Disk)
      → Contains f path old d
      → ((a : A) → r ≡ ok a → Q a d)
      → ((a : A) → IsAtomic (Q a) (g a))
      → Contains f path old (continue r g d).1 ⊎ Contains f path new (continue r g d).1
  continue-whole Q (ok a) g d kept ready rest = (rest a).keeps_whole d (ready a refl)
  continue-whole Q (err e) g d kept ready rest = inl kept

  continue-installs :
      {A : Type 0} (Q : A → Disk → Type 0) (r : Result FileError A) (g : A → F (Unit {0}))
      (d : Disk)
      → ((a : A) → r ≡ ok a → Q a d)
      → ((a : A) → IsAtomic (Q a) (g a))
      → (continue r g d).0 ≡ ok tt
      → Contains f path new (continue r g d).1
  continue-installs Q (ok a) g d ready rest h = (rest a).installs d (ready a refl) h
  continue-installs Q (err e) g d ready rest h = absurd (cc h)

  pub sequence-IsAtomic :
      {A : Type 0} (P : Disk → Type 0) (Q : A → Disk → Type 0) (m : F A) (g : A → F (Unit {0}))
      → ((d : Disk) → P d → Contains f path old (m d).1)
      → ((d : Disk) → P d → (a : A) → (m d).0 ≡ ok a → Q a (m d).1)
      → ((a : A) → IsAtomic (Q a) (g a))
      → IsAtomic P (m >>= g)
  unfolding ◌>>=◌
  sequence-IsAtomic P Q m g kept ready rest = record {
    keeps_whole = λ d p. continue-whole Q (m d).0 g (m d).1 (kept d p) (ready d p) rest;
    installs = λ d p. continue-installs Q (m d).0 g (m d).1 (ready d p) rest;
  }

  -- A fact that does not depend on the disk.
  pub fact-IsAtomic :
      (Fact : Type 0) (P : Disk → Type 0) (m : F (Unit {0}))
      → (Fact → IsAtomic P m)
      → IsAtomic (λ d. Fact × P d) m
  fact-IsAtomic Fact P m atomic = record {
    keeps_whole = λ d (fact, p). (atomic fact).keeps_whole d p;
    installs = λ d (fact, p). (atomic fact).installs d p;
  }

  -- A step that keeps what is known of the disk.
  pub step-IsAtomic :
      {A : Type 0} (P : Disk → Type 0) (m : F A) (g : A → F (Unit {0}))
      → ((d : Disk) → P d → Contains f path old d)
      → Keeps P m
      → ((a : A) → IsAtomic P (g a))
      → IsAtomic P (m >>= g)
  step-IsAtomic P m g knows keeps rest =
      sequence-IsAtomic P (λ _. P) m g (λ d p. knows _ (keeps d p)) (λ d p a _. keeps d p) rest
