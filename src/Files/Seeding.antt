-- ===== src/Files/Seeding.antt =====
-- When a router of internal/frr/files.go still needs its first commands.
use frridge.Base.{
  ◌≡◌, refl, sym, subst, ap, ◌∙◌, String, Bool, true, false, Option, none, some, [], ◌∷◌, ok, arith,
  eq_refl,
}
use frridge.Base.Dict.{Dict, lookup, insert, is_some, lookup-insert}
use frridge.Base.FilePath.{join}
use frridge.Base.Program.{
  Keeps, pure, lift, within, sequence-ok, sequence-Keeps, within-Keeps, pure-Keeps, raise-Keeps,
  within-ok, sequence-value, ok_inj, sequence-value,
}
use frridge.Runtime.Host.{PrepareResult}
use frridge.Files.Disk.{
  Faults, FileError, Disk, Presence, present, absent, stat_fault, found, touch, write_file, stat,
  torn_write, at_step,
}
use frridge.Files.Frr.{
  seed_marker_name, write_absent, write_if_missing, write_default, place_config, needs_seed_of,
  prepare_router_files, mark_seeded,
}

module _ (f : Faults) (path : String) where
  pub record Exists (d : Disk) : Type 0 where
    pub is_there : is_some (lookup path d.files) ≡ true

  insert_there :
      (other text : String) (m : Dict String)
      → is_some (lookup path m) ≡ true
      → is_some (lookup path (insert other text m)) ≡ true
  unfolding is_some
  insert_there other text m there = ground (arith, lookup-insert other path text m)

  torn_there :
      (other : String) (left : Option String) (m : Dict String)
      → is_some (lookup path m) ≡ true
      → is_some (lookup path (torn_write other left m)) ≡ true
  torn_there other none m there = there
  torn_there other (some left) m there = insert_there other left m there

  touch-Exists : Keeps Exists (touch f)
  unfolding touch
  touch-Exists d p = record { is_there = ground (arith, p.is_there) }

  stat-Exists : (other : String) → Keeps Exists (stat f other)
  unfolding stat
  stat-Exists other d p = record { is_there = ground (arith, p.is_there) }

  write_file-Exists : (other text : String) → Keeps Exists (write_file f other text)
  unfolding write_file
  write_file-Exists other text d p = record {
    is_there = ground (
      arith,
      insert_there other text d.files p.is_there,
      torn_there other (f.torn d.clock) d.files p.is_there,
    );
  }

  ruleset exists_rules = (
    sequence-Keeps, within-Keeps, pure-Keeps, raise-Keeps, touch-Exists, stat-Exists,
    write_file-Exists,
  )

  write_absent-Exists :
      (other text : String) (answer : Presence) → Keeps Exists (write_absent f other text answer)
  unfolding write_absent
  write_absent-Exists other text present = search exists_rules
  write_absent-Exists other text absent = search exists_rules
  write_absent-Exists other text (stat_fault e) = search exists_rules

  write_default-Exists :
      (other text : String) (answer : Presence) → Keeps Exists (write_default f other text answer)
  unfolding write_default
  write_default-Exists other text present = search exists_rules
  write_default-Exists other text absent = search exists_rules
  write_default-Exists other text (stat_fault e) = search exists_rules

  write_if_missing-Exists : (other text : String) → Keeps Exists (write_if_missing f other text)
  unfolding write_if_missing
  write_if_missing-Exists other text = search (exists_rules, write_absent-Exists)

  place_config-Exists :
      (marker other text : String) → Keeps Exists (place_config f false marker other text)
  unfolding place_config
  place_config-Exists marker other text = search (exists_rules, write_default-Exists)

  write_file-there :
      (text : String) (d : Disk)
      → (write_file f path text d).0 ≡ ok tt
      → Exists (write_file f path text d).1
  unfolding write_file is_some
  write_file-there text d h = record {
    is_there = ground (arith, lookup-insert path path text d.files, eq_refl path);
  }

  found_there : (o : Option String) → is_some o ≡ true → found o ≡ present
  unfolding is_some
  found_there none there = absurd (cc there)
  found_there (some text) there = refl

  seen_there :
      (d : Disk) (answer : Presence) (needs : Bool)
      → Exists d
      → (stat f path d).0 ≡ ok answer
      → needs_seed_of false answer ≡ ok needs
      → needs ≡ false
  unfolding stat needs_seed_of
  seen_there d present needs p e h = ground arith
  seen_there d (stat_fault x) needs p e h = absurd (cc h)
  seen_there d absent needs p e h =
      absurd (ground (arith, found_there (lookup path d.files) p.is_there))

module _ (f : Faults) (router_dir hostname : String) where
  abbrev pub marker : String
  marker = join (router_dir ∷ seed_marker_name ∷ [])

  prepared_there :
      (d : Disk) (r : PrepareResult)
      → Exists f marker d
      → (prepare_router_files f router_dir hostname false d).0 ≡ ok r
      → r.needs_seed ≡ false
  unfolding prepare_router_files lift pure
  prepared_there d r p =
      let P = Exists f marker in
      let V = λ (r : PrepareResult). r.needs_seed ≡ false in
      sequence-value P V _ _ r
        (within-Keeps {E = FileError} P (at_step "create router config dir") (touch f)
          (touch-Exists f marker))
        (λ _.
          sequence-value P V _ _ r
            (within-Keeps {E = FileError} P (at_step "write daemons") _
              (write_file-Exists f marker _ _))
            (λ _. sequence-value P V _ _ r (write_if_missing-Exists f marker _ _) (λ _.
              sequence-value P V _ _ r (place_config-Exists f marker marker _ _) (λ _ t q h.
                let (answer, e, same) = sequence-ok (stat f marker) _ t h in
                let h1 = subst (λ z. z.0 ≡ ok r) same h in
                let (needs, made, same1) = sequence-ok (lift (needs_seed_of false answer)) _ _ h1 in
                let built = ok_inj (subst (λ z. z.0 ≡ ok r) same1 h1) in
                ap (λ (x : PrepareResult). x.needs_seed) (sym built)
                ∙ seen_there f marker t answer needs q e made))))
        d p

  marked :
      (d : Disk) → (mark_seeded f marker d).0 ≡ ok tt → Exists f marker (mark_seeded f marker d).1
  unfolding mark_seeded within
  marked d done =
      let (_, _, same) =
        sequence-ok (within (at_step "create seed marker dir") (touch f)) _ d done in
      rw same (
        write_file-there f marker "seeded\n" _ (
          within-ok (at_step "write seed marker") (write_file f marker "seeded\n") _
            (subst (λ z. z.0 ≡ ok tt) same done)))

  -- After MarkSeeded has succeeded, preparing the router's files without a reseed finds that its
  -- first commands need not run again.
  pub prepare_router_files-mark_seeded :
      (d : Disk) (r : PrepareResult)
      → (mark_seeded f marker d).0 ≡ ok tt
      → (prepare_router_files f router_dir hostname false (mark_seeded f marker d).1).0 ≡ ok r
      → r.needs_seed ≡ false
  unfolding mark_seeded
  prepare_router_files-mark_seeded d r done = prepared_there _ r (marked d done)
