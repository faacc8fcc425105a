-- ===== src/Files/Atomic/Write.antt =====
-- Write of internal/state/state.go: the steps that lead to its rename.
use frridge.Base.{
  ◌≡◌, refl, ap, ◌⊎◌, inl, inr, ◌<>◌, String, false, Option, none, some, ok, ◌==◌, ℕ, Option-cases,
  arith, eq_refl,
}
use frridge.Base.Dict.{lookup, erase, lookup-insert}
use frridge.Base.Program.{Keeps, ◌>>=◌, pure, lift, within, within-Keeps, within-ok}
use frridge.State.{LabState, Hashing, validate}
use frridge.Files.Disk.{
  Faults, F, FileError, Disk, dir_of, touch, write_file, remove, at_step, read_file, rename,
  create_temp,
}
use frridge.Files.Snapshots.{Codec, read, fill_and_rename, then_remove, write, given}
use frridge.Files.Atomic.{
  Contains, touch-Contains, stat-Contains, find_mode-Contains, write_file-Contains, remove-Contains,
  create_temp-Contains, IsAtomic, sequence-IsAtomic, step-IsAtomic, fact-IsAtomic,
}

module _ (f : Faults) (temp path text : String) (old : Option String)
    (apart : (temp == path) ≡ false) where
  -- The old file is there, and the temporary one is complete.
  record IsFilled (d : Disk) : Type 0 where
    is_old : Contains f path old d
    is_full : Contains f temp (some text) d

  touch-IsFilled : Keeps IsFilled (touch f)
  touch-IsFilled d filled = record {
    is_old = touch-Contains f path old d filled.is_old;
    is_full = touch-Contains f temp (some text) d filled.is_full;
  }

  write_file-full :
      (d : Disk)
      → (write_file f temp text d).0 ≡ ok tt
      → Contains f temp (some text) (write_file f temp text d).1
  unfolding write_file
  write_file-full d h = record {
    is_content = ground (arith, lookup-insert temp temp text d.files, eq_refl temp);
  }

  rename-whole :
      (d : Disk)
      → IsFilled d
      → Contains f path old (rename f temp path d).1
        ⊎ Contains f path (some text) (rename f temp path d).1
  unfolding rename
  rename-whole d filled = elim (Option-cases (f.fails d.clock)) [
    | inl fine ↦ inr (record {
      is_content = ground (
        arith,
        fine,
        filled.is_full.is_content,
        lookup-insert path path text (erase temp d.files),
        eq_refl path,
      );
    })
    | inr (e, failed) ↦
        inl (record { is_content = ground (arith, failed, filled.is_old.is_content) })
  ]

  rename-installs :
      (d : Disk)
      → IsFilled d
      → (rename f temp path d).0 ≡ ok tt
      → Contains f path (some text) (rename f temp path d).1
  unfolding rename
  rename-installs d filled h = record {
    is_content = ground (
      arith,
      filled.is_full.is_content,
      lookup-insert path path text (erase temp d.files),
      eq_refl path,
    );
  }

  rename-IsAtomic :
      IsAtomic f path old
        (some text)
        IsFilled
        (within (at_step "replace state file") (rename f temp path))
  unfolding within
  rename-IsAtomic = record {
    keeps_whole = rename-whole;
    installs = λ d filled h. rename-installs d filled (within-ok _ (rename f temp path) d h);
  }

  -- Filling the temporary file and giving it the place.
  fill_and_rename-IsAtomic :
      (content : String)
      → content <> "\n" ≡ text
      → IsAtomic f path old (some text) (Contains f path old) (fill_and_rename f temp path content)
  unfolding fill_and_rename
  fill_and_rename-IsAtomic content same =
      let Old = Contains f path old in
      step-IsAtomic f path old (some text) Old _ _ (λ d p. p) (stat-Contains f path old path)
        (λ answer.
          step-IsAtomic f path old (some text) Old _ _ (λ d p. p)
            (find_mode-Contains f path old answer)
            (λ _.
              step-IsAtomic f path old (some text) Old _ _ (λ d p. p) (touch-Contains f path old)
                (λ _. rw same (
                  sequence-IsAtomic f path old (some text) Old (λ _. IsFilled) _ _
                    (write_file-Contains f path old temp text apart)
                    (λ d p _ h. record {
                      is_old = write_file-Contains f path old temp text apart d p;
                      is_full = write_file-full d h;
                    })
                    (λ _.
                      step-IsAtomic f path old (some text) IsFilled _ _ (λ d p. p.is_old)
                        touch-IsFilled
                        (λ _.
                          step-IsAtomic f path old (some text) IsFilled _ _ (λ d p. p.is_old)
                            touch-IsFilled (λ _. rename-IsAtomic)))))))

  then_remove-IsAtomic :
      (body : F (Unit {0}))
      → IsAtomic f path old (some text) (Contains f path old) body
      → IsAtomic f path old (some text) (Contains f path old) (then_remove f temp body)
  unfolding then_remove
  then_remove-IsAtomic body atomic = record {
    keeps_whole = λ d p. still (atomic.keeps_whole d p);
    installs = λ d p h. remove-Contains f path (some text) temp apart _ (atomic.installs d p h);
  }
    where
      still :
          {d : Disk}
          → Contains f path old d ⊎ Contains f path (some text) d
          → Contains f path old (remove f temp d).1
            ⊎ Contains f path (some text) (remove f temp d).1
      still (inl p) = inl (remove-Contains f path old temp apart _ p)
      still (inr p) = inr (remove-Contains f path (some text) temp apart _ p)

module _ (f : Faults) (codec : Codec) (path : String) where
  created :
      (dir : String) (d : Disk) (temp : String)
      → (create_temp f dir d).0 ≡ ok temp
      → temp ≡ f.temporary d.clock dir
  unfolding create_temp
  created dir d temp h = ground arith

  encoded :
      (answer : Option String) (a text : String)
      → answer ≡ some text
      → given answer ≡ ok a
      → a ≡ text
  encoded none a text known h = absurd (cc known)
  encoded (some x) a text known h = cc

  write-IsAtomic :
      (snapshot : LabState) (text : String) (old : Option String)
      → codec.encode snapshot ≡ some text
      → ((n : ℕ) → (f.temporary n (dir_of path) == path) ≡ false)
      → IsAtomic f path old
          (some (text <> "\n"))
          (Contains f path old)
          (write f codec path snapshot)
  unfolding write lift within
  write-IsAtomic snapshot text old known apart =
      let Old = Contains f path old in
      let new = some (text <> "\n") in
      step-IsAtomic f path old new Old _ _ (λ d p. p)
        (within-Keeps {E = FileError} Old (at_step "create state dir") (touch f)
          (touch-Contains f path old))
        (λ _.
          sequence-IsAtomic f path old new Old (λ a d. (a ≡ text) × Old d) _ _ (λ d p. p)
            (λ d p a h. (encoded (codec.encode snapshot) a text known h, p))
            (λ a. fact-IsAtomic f path old new (a ≡ text) Old _ (λ same.
              sequence-IsAtomic f path old new Old (λ temp d. ((temp == path) ≡ false) × Old d) _ _
                (create_temp-Contains f path old (dir_of path) apart)
                (λ d p temp h. (
                  rw (created (dir_of path) d temp h) (apart d.clock),
                  create_temp-Contains f path old (dir_of path) apart d p,
                ))
                (λ temp. fact-IsAtomic f path old new ((temp == path) ≡ false) Old _ (λ other.
                  then_remove-IsAtomic f temp path (text <> "\n") old other _ (
                    fill_and_rename-IsAtomic f temp path (text <> "\n") old other a
                      (ap (λ u. u <> "\n") same)))))))

  -- Whatever fails on the way, Write leaves the state file as it was or replaces it by the whole
  -- text of the snapshot, and a success means the latter; the temporary file has a name of its own.
  pub write-whole :
      (snapshot : LabState) (text : String) (d : Disk)
      → codec.encode snapshot ≡ some text
      → ((n : ℕ) → (f.temporary n (dir_of path) == path) ≡ false)
      → ((lookup path (write f codec path snapshot d).1.files ≡ lookup path d.files)
          ⊎ (lookup path (write f codec path snapshot d).1.files ≡ some (text <> "\n")))
        × ((write f codec path snapshot d).0 ≡ ok tt
            → lookup path (write f codec path snapshot d).1.files ≡ some (text <> "\n"))
  write-whole snapshot text d known apart =
      let atomic = write-IsAtomic snapshot text (lookup path d.files) known apart in
      let here : Contains f path (lookup path d.files) d = record { is_content = refl } in
      (
        elim (atomic.keeps_whole d here) [ inl p ↦ inl p.is_content | inr p ↦ inr p.is_content ],
        λ h. (atomic.installs d here h).is_content,
      )

  module _ (hash : Hashing) where
    -- What is read back when the read does not fail and the content decodes to a valid snapshot.
    read_content :
        (content : String) (snapshot : LabState) (d : Disk)
        → lookup path d.files ≡ some content
        → f.fails d.clock ≡ none
        → codec.decode content ≡ some snapshot
        → validate hash snapshot snapshot.lab ≡ ok tt
        → (read f codec hash path d).0 ≡ ok snapshot
    unfolding read read_file within lift ◌>>=◌ pure
    read_content content snapshot d here fine decodes valid =
        ground (arith, here, fine, decodes, valid)

    -- A snapshot that Write has written with success is read back by Read as it was, when the codec
    -- reads its own text, the snapshot is valid, the temporary file has a name of its own, and the
    -- read itself does not fail.
    pub read-write :
        (snapshot : LabState) (text : String) (d : Disk)
        → codec.encode snapshot ≡ some text
        → codec.decode (text <> "\n") ≡ some snapshot
        → validate hash snapshot snapshot.lab ≡ ok tt
        → ((n : ℕ) → (f.temporary n (dir_of path) == path) ≡ false)
        → (write f codec path snapshot d).0 ≡ ok tt
        → f.fails (write f codec path snapshot d).1.clock ≡ none
        → (read f codec hash path (write f codec path snapshot d).1).0 ≡ ok snapshot
    read-write snapshot text d known decodes valid apart done fine =
        read_content (text <> "\n") snapshot _ ((write-whole snapshot text d known apart).1 done)
          fine decodes valid
