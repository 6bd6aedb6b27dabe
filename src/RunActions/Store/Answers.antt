-- ===== src/RunActions/Store/Answers.antt =====
-- When `create`, `update` and `delete` succeed on a file system that takes every change.
use apm_projectrunner.Base.{
  String, true, false, List, [], ◌∷◌, ◌++◌, none, Option-cases, Bool-cases, ◌⊎◌, inl, inr, ◌≡◌,
  refl, any, string_eq, arith,
}
use apm_projectrunner.RunActions.{RunScript, RunActionError, Acted, ok, err, validate}
use apm_projectrunner.RunActions.Collection.{named, IsSound, validate_collection-IsSound}
use apm_projectrunner.RunActions.Store
use apm_projectrunner.RunActions.Store.{Disk, Place, Contents, Parsed, IsLawful}
use apm_projectrunner.RunActions.Store.View.{Request, adding, changing, dropping, position-At}
use apm_projectrunner.RunActions.Store.Sound.{
  append-IsSound, set_at-IsSound, remove_at-IsSound, position-none, At-any, taken-any, taken-true,
}
use apm_projectrunner.RunActions.Store.Kept.{perform, load_result-IsSound}

-- Every change of the file system succeeds, and every list has a text.
pub record Works {World : Type 0} (disk : Disk World) : Type 0 where
  pub to_string-parsed :
      (scripts : List RunScript) → (text : String) × (disk.to_string scripts ≡ Parsed.parsed text)
  pub create_dir_all-none :
      (path : String) (w : World) → (w' : World) × (disk.create_dir_all path w ≡ (w', none))
  pub write-none :
      (path text : String) (w : World) → (w' : World) × (disk.write path text w ≡ (w', none))

-- The requests that the stored list allows.
abbrev pub Admissible : Request → List RunScript → Type 0
Admissible (adding s) before = (validate s ≡ none) × (any (named s.name) before ≡ false)
Admissible (changing old s) before =
    (validate s ≡ none)
    × (any (named old) before ≡ true)
    × ((s.name ≡ old) ⊎ (any (named s.name) before ≡ false))
Admissible (dropping old) before = any (named old) before ≡ true

-- The outcome of a request on the stored list: it is done exactly when the list allows it, and
-- otherwise nothing has changed.
pub data Answers {World : Type 0} (request : Request) (before : List RunScript) (w : World)
    : World × Acted (List RunScript) → Type 0 where
  done :
      {w' : World} {after : List RunScript}
      → Admissible request before
      → Answers request before w (w', ok after)
  refused :
      {why : RunActionError}
      → (Admissible request before → ⊥)
      → Answers request before w (w, err why)

module _ {World : Type 0} (disk : Disk World) (place : Place) where
  saved-ok :
      Works disk
      → (scripts : List RunScript) (w : World) → IsSound scripts
      → (w' : World) × (Store.saved disk place scripts w ≡ (w', ok scripts))
  unfolding Store.saved Store.save_result
  saved-ok works scripts w sound =
      let e = (validate_collection-IsSound scripts place.path).1 sound in
      let (w1, made) = works.create_dir_all-none place.parent w in
      let (text, t) = works.to_string-parsed scripts in
      let (w2, put) = works.write-none place.path text w1 in (w2, rw (e, made, t, put) refl)

  saved-Answers :
      Works disk
      → (request : Request) (before scripts : List RunScript) (w : World)
      → Admissible request before
      → IsSound scripts
      → Answers request before w (Store.saved disk place scripts w)
  saved-Answers works request before scripts w fits sound =
      let (w', e) = saved-ok works scripts w sound in rw e (Answers.done fits)

  added-Answers :
      Works disk
      → (s : RunScript) (before : List RunScript) (w : World) → IsSound before
      → validate s ≡ none
      → Answers (adding s) before w (Store.added disk place s (ok before) w)
  unfolding Store.added
  added-Answers works s before w sound v = elim (Bool-cases (any (named s.name) before)) [
    | inl e ↦ rw e (Answers.refused (λ (_, free). ground arith))
    | inr e ↦ rw e (
        saved-Answers works (adding s) before (before ++ s ∷ []) w (v, e)
          (append-IsSound before s sound v e))
  ]

  replaced-Answers :
      Works disk
      → (old : String) (s : RunScript) (before : List RunScript) (w : World) → IsSound before
      → validate s ≡ none
      → Answers (changing old s) before w (Store.replaced disk place old s (ok before) w)
  unfolding Store.replaced
  replaced-Answers works old s before w sound v = elim (Option-cases (Store.position old before)) [
    | inl e ↦
        let lost = position-none old before e in
        rw e (Answers.refused (λ (_, there_, _). ground arith))
    | inr (index, e) ↦
        let at = position-At old before index e in
        elim (Bool-cases (Store.taken index s.name before)) [
          | inl t ↦
              rw (e, t)
                (Answers.refused (λ (_, _, free). taken-true old s.name at sound.distinct t free))
          | inr t ↦
              rw (e, t)
                (saved-Answers works (changing old s) before (Store.set_at index s before) w
                  (v, At-any old at, taken-any old s.name at t)
                  (set_at-IsSound index s before sound v t))
        ]
  ]

  removed-Answers :
      Works disk
      → (old : String) (before : List RunScript) (w : World) → IsSound before
      → Answers (dropping old) before w (Store.removed disk place old (ok before) w)
  unfolding Store.removed
  removed-Answers works old before w sound = elim (Option-cases (Store.position old before)) [
    | inl e ↦
        let lost = position-none old before e in rw e (Answers.refused (λ there_. ground arith))
    | inr (index, e) ↦ rw e (
        saved-Answers works (dropping old) before (Store.remove_at index before) w
          (At-any old (position-At old before index e)) (remove_at-IsSound index before sound))
  ]

  -- On a file system that takes every change, a request is done exactly when the stored list allows it,
  -- and a refused request leaves everything as it was.
  pub perform-Answers :
      Works disk
      → (request : Request) (before : List RunScript) (w : World)
      → Store.load_result disk place w ≡ ok before
      → Answers request before w (perform disk place request w)
  unfolding perform Store.create Store.update Store.delete
  perform-Answers works (adding s) before w l = elim (Option-cases (validate s)) [
    | inl v ↦
        rw (v, l) (added-Answers works s before w (load_result-IsSound disk place w before l) v)
    | inr (message, v) ↦ rw v (Answers.refused (λ (valid, _). ground arith))
  ]
  perform-Answers works (changing old s) before w l = elim (Option-cases (validate s)) [
    | inl v ↦
        rw (v, l)
          (replaced-Answers works old s before w (load_result-IsSound disk place w before l) v)
    | inr (message, v) ↦ rw v (Answers.refused (λ (valid, _, _). ground arith))
  ]
  perform-Answers works (dropping old) before w l =
      rw l (removed-Answers works old before w (load_result-IsSound disk place w before l))
