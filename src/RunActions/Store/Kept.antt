-- ===== src/RunActions/Store/Kept.antt =====
-- What the file holds after `create`, `update` and `delete`.
use apm_projectrunner.Base.{
  String, Bool, true, false, List, [], ◌∷◌, ◌++◌, Option, none, some, Option-cases, inl, inr, ◌≡◌,
  refl, subst, any, string_eq, if◌then◌else◌, arith,
}
use apm_projectrunner.RunActions.{RunScript, RunActionError, Acted, ok, err, validate}
use apm_projectrunner.RunActions.Collection.{
  named, validate_collection, IsSound, validate_collection-IsSound,
}
use apm_projectrunner.RunActions.Store
use apm_projectrunner.RunActions.Store.{Disk, Place, Contents, Parsed, IsLawful}
use apm_projectrunner.RunActions.Store.View.{
  Request, adding, changing, dropping, find, view, Leaves, find-append, find-set_at, find-remove_at,
  position-At,
}

module _ {World : Type 0} (disk : Disk World) (place : Place) where
  unfoldable pub perform : Request → World → World × Acted (List RunScript)
  perform (adding s) w = Store.create disk place s w
  perform (changing old s) w = Store.update disk place old s w
  perform (dropping name) w = Store.delete disk place name w

  vetted-ok :
      (scripts after : List RunScript) (found : Option RunActionError)
      → Store.vetted disk place scripts found ≡ ok after
      → (found ≡ none) × (scripts ≡ after)
  vetted-ok scripts after none h = (refl, ground arith)
  vetted-ok scripts after (some why) h = absurd (ground arith)

  collected-IsSound :
      (p : Parsed (List RunScript)) (before : List RunScript)
      → Store.collected disk place p ≡ ok before
      → IsSound before
  collected-IsSound (Parsed.malformed why) before h = absurd (ground arith)
  collected-IsSound (Parsed.parsed scripts) before h =
      let (e, same) = vetted-ok scripts before (validate_collection scripts place.path) h in
      subst IsSound same ((validate_collection-IsSound scripts place.path).0 e)

  read-IsSound :
      (seen : Contents) (before : List RunScript)
      → Store.read disk place seen ≡ ok before
      → IsSound before
  read-IsSound Contents.missing before h =
      let same : [] ≡ before = ground arith in
      subst IsSound same (record { valid = tt; distinct = tt })
  read-IsSound (Contents.unreadable why) before h = absurd (ground arith)
  read-IsSound (Contents.contents text) before h = collected-IsSound (disk.from_str text) before h

  pub load_result-IsSound :
      (w : World) (before : List RunScript)
      → Store.load_result disk place w ≡ ok before
      → IsSound before
  unfolding Store.load_result
  load_result-IsSound w before h = read-IsSound (disk.read_to_string place.path w) before h

  serialized-none :
      (scripts : List RunScript) (p : Parsed String) (w w' : World)
      → Store.serialized disk place p w ≡ (w', none)
      → (text : String) × (p ≡ Parsed.parsed text) × (disk.write place.path text w ≡ (w', none))
  serialized-none scripts (Parsed.malformed why) w w' h = absurd (ground arith)
  serialized-none scripts (Parsed.parsed text) w w' h =
      (text, refl, written-none (disk.write place.path text w) h)
    where
      written-none :
          (r : World × Option String) → Store.written disk place r ≡ (w', none) → r ≡ (w', none)
      written-none (v, none) h = ground arith
      written-none (v, some why) h = absurd (ground arith)

  prepared-none :
      (scripts : List RunScript) (r : World × Option String) (w' : World)
      → Store.prepared disk place scripts r ≡ (w', none)
      → (w : World) × (text : String) × (disk.to_string scripts ≡ Parsed.parsed text)
        × (disk.write place.path text w ≡ (w', none))
  prepared-none scripts (w, some why) w' h = absurd (ground arith)
  prepared-none scripts (w, none) w' h =
      let (text, t, written) = serialized-none scripts (disk.to_string scripts) w w' h in
      (w, text, t, written)

  accepted-none :
      (scripts : List RunScript) (found : Option RunActionError) (w w' : World)
      → Store.accepted disk place scripts found w ≡ (w', none)
      → (found ≡ none)
        × (Store.prepared disk place scripts (disk.create_dir_all place.parent w) ≡ (w', none))
  accepted-none scripts none w w' h = (refl, h)
  accepted-none scripts (some why) w w' h = absurd (ground arith)

  answered-ok :
      (scripts after : List RunScript) (r : World × Option RunActionError) (w' : World)
      → Store.answered disk place scripts r ≡ (w', ok after)
      → (r ≡ (w', none)) × (scripts ≡ after)
  answered-ok scripts after (w, none) w' h = (ground arith, ground arith)
  answered-ok scripts after (w, some why) w' h = absurd (ground arith)

  -- A list that was saved is sound, and is the one that is loaded next.
  pub saved-load_result :
      IsLawful disk
      → (scripts after : List RunScript) (w w' : World)
      → Store.saved disk place scripts w ≡ (w', ok after)
      → (scripts ≡ after) × IsSound scripts × (Store.load_result disk place w' ≡ ok scripts)
  unfolding Store.saved Store.save_result Store.load_result
  saved-load_result lawful scripts after w w' h =
      let (e, same) = answered-ok scripts after (Store.save_result disk place scripts w) w' h in
      let (v, p) = accepted-none scripts (validate_collection scripts place.path) w w' e in
      let (w1, text, t, written) =
        prepared-none scripts (disk.create_dir_all place.parent w) w' p in
      (
        same,
        (validate_collection-IsSound scripts place.path).0 v,
        rw
            (
              lawful.read-write place.path text w1 w' written,
              lawful.from_str-to_string scripts text t,
              v,
            )
            refl,
      )

  -- The lists before and after a request that succeeds.
  Kept : Request → World → World → List RunScript → Type 0
  Kept request w w' after =
      (before : List RunScript) × (Store.load_result disk place w ≡ ok before)
      × (Store.load_result disk place w' ≡ ok after)
      × Leaves request before after

  kept_lem :
      IsLawful disk
      → (request : Request) (before scripts after : List RunScript) (w w' : World)
      → Store.load_result disk place w ≡ ok before
      → ((name : String) → find name scripts ≡ view request before name)
      → Store.saved disk place scripts w ≡ (w', ok after)
      → Kept request w w' after
  unfolding Kept
  kept_lem lawful request before scripts after w w' l f h =
      let (same, sound, e) = saved-load_result lawful scripts after w w' h in
      subst (λ xs. Kept request w w' xs) same (before, l, e, record { sound = sound; found = f })

  checked-ok :
      (s : RunScript) (found : Option String) (w w' : World) (after : List RunScript)
      (rest : World × Acted (List RunScript))
      → Store.checked disk place s found w rest ≡ (w', ok after)
      → rest ≡ (w', ok after)
  checked-ok s none w w' after rest h = h
  checked-ok s (some message) w w' after rest h = absurd (ground arith)

  unless-ok :
      (b : Bool) (why : RunActionError) (w w' : World) (after : List RunScript)
      (rest : World × Acted (List RunScript))
      → (if b then (w, err why) else rest) ≡ (w', ok after)
      → (b ≡ false) × (rest ≡ (w', ok after))
  unless-ok true why w w' after rest h = absurd (ground arith)
  unless-ok false why w w' after rest h = (refl, h)

  added-Kept :
      IsLawful disk
      → (s : RunScript) (loaded : Acted (List RunScript)) (w w' : World) (after : List RunScript)
      → Store.load_result disk place w ≡ loaded
      → Store.added disk place s loaded w ≡ (w', ok after)
      → Kept (adding s) w w' after
  unfolding Store.added
  added-Kept lawful s (err why) w w' after l h = absurd (ground arith)
  added-Kept lawful s (ok before) w w' after l h =
      let (free, h') = unless-ok (any (named s.name) before) _ w w' after _ h in
      kept_lem lawful (adding s) before (before ++ s ∷ []) after w w' l
        (λ name. unfold view in find-append before s name free) h'

  replaced-Kept :
      IsLawful disk
      → (old : String) (s : RunScript) (loaded : Acted (List RunScript)) (w w' : World)
        (after : List RunScript)
      → Store.load_result disk place w ≡ loaded
      → Store.replaced disk place old s loaded w ≡ (w', ok after)
      → Kept (changing old s) w w' after
  unfolding Store.replaced
  replaced-Kept lawful old s (err why) w w' after l h = absurd (ground arith)
  replaced-Kept lawful old s (ok before) w w' after l h =
      elim (Option-cases (Store.position old before)) [
        | inl e ↦ absurd (ground arith)
        | inr (index, e) ↦
            let h1 : Store.replaced_at disk place old s before w (some index) ≡ (w', ok after) =
              subst (λ o. Store.replaced_at disk place old s before w o ≡ (w', ok after)) e h in
            let (free, h') = unless-ok (Store.taken index s.name before) _ w w' after _ h1 in
            kept_lem lawful (changing old s) before (Store.set_at index s before) after w w' l
              (λ name.
                find-set_at old s name (position-At old before index e)
                  (load_result-IsSound w before l).distinct free)
              h'
      ]

  removed-Kept :
      IsLawful disk
      → (old : String) (loaded : Acted (List RunScript)) (w w' : World) (after : List RunScript)
      → Store.load_result disk place w ≡ loaded
      → Store.removed disk place old loaded w ≡ (w', ok after)
      → Kept (dropping old) w w' after
  unfolding Store.removed
  removed-Kept lawful old (err why) w w' after l h = absurd (ground arith)
  removed-Kept lawful old (ok before) w w' after l h =
      elim (Option-cases (Store.position old before)) [
        | inl e ↦ absurd (ground arith)
        | inr (index, e) ↦
            let h1 : Store.removed_at disk place old before w (some index) ≡ (w', ok after) =
              subst (λ o. Store.removed_at disk place old before w o ≡ (w', ok after)) e h in
            kept_lem lawful (dropping old) before (Store.remove_at index before) after w w' l
              (λ name.
                find-remove_at old name (position-At old before index e)
                  (load_result-IsSound w before l).distinct)
              h1
      ]

  -- When a request succeeds, the file held a list before, and it now holds the list that is returned:
  -- every script in it is valid, no two have one name, and each name has the script that the request
  -- gives it.
  pub perform-Leaves :
      IsLawful disk
      → (request : Request) (w w' : World) (after : List RunScript)
      → perform request w ≡ (w', ok after)
      → (before : List RunScript) × (Store.load_result disk place w ≡ ok before)
        × (Store.load_result disk place w' ≡ ok after)
        × Leaves request before after
  unfolding perform Kept Store.create Store.update Store.delete
  perform-Leaves lawful (adding s) w w' after h =
      added-Kept lawful s (Store.load_result disk place w) w w' after refl
        (checked-ok s (validate s) w w' after _ h)
  perform-Leaves lawful (changing old s) w w' after h =
      replaced-Kept lawful old s (Store.load_result disk place w) w w' after refl
        (checked-ok s (validate s) w w' after _ h)
  perform-Leaves lawful (dropping name) w w' after h =
      removed-Kept lawful name (Store.load_result disk place w) w w' after refl h
