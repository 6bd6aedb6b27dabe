-- ===== src/RouterHost/Admin/Framing.antt =====
-- Which frames are read.
use apm_projectrunner.Base.{
  ℕ, suc, ◌+◌, ◌≤◌, ◌≡◌, refl, sym, ap, subst, ◌∙◌, ◌↔◌, inl, inr, List, [], ◌∷◌, ◌++◌, length,
  false, ◌==◌, nat_eq, nat_beq_correct, arith, Bool-cases, All,
}
use apm_projectrunner.RouterHost.Admin.{frame, read_from, read_frame, max_frame_bytes}

abbrev pub NoNewline : List ℕ → Type 0
NoNewline bs = All (λ b. (b == b'\n') ≡ false) bs

-- The frame is the input up to its first newline, and it is short enough.
pub record IsFrame (input bs : List ℕ) : Type 0 where
  pub later : List ℕ
  pub line : input ≡ bs ++ b'\n' ∷ later
  pub single : NoNewline bs
  pub bounded : length bs ≤ max_frame_bytes

length-push : (bs : List ℕ) (b : ℕ) → length (bs ++ b ∷ []) ≡ suc (length bs)
length-push [] b = refl
length-push (x ∷ bs) b = ap suc (length-push bs b)

push-append : (bs cs : List ℕ) (b : ℕ) → (bs ++ b ∷ []) ++ cs ≡ bs ++ b ∷ cs
push-append [] cs b = refl
push-append (x ∷ bs) cs b = ap (λ ds. x ∷ ds) (push-append bs cs b)

append-nil : (bs : List ℕ) → bs ++ [] ≡ bs
append-nil [] = refl
append-nil (x ∷ bs) = ap (λ ds. x ∷ ds) (append-nil bs)

frame-inj : {bs cs : List ℕ} → frame bs ≡ frame cs → bs ≡ cs
frame-inj e = cc

read_from-line :
    (input so_far bs : List ℕ)
    → length so_far ≤ max_frame_bytes
    → read_from so_far input ≡ frame bs
    → (line : List ℕ) × (later : List ℕ) × (bs ≡ so_far ++ line)
      × (input ≡ line ++ b'\n' ∷ later)
      × NoNewline line
      × (length bs ≤ max_frame_bytes)
unfolding read_from
read_from-line [] so_far bs small h = absurd (ground arith)
read_from-line (b ∷ input) so_far bs small h = elim (Bool-cases (b == b'\n')) [
  | inl newline ↦
      let e : so_far ≡ bs = frame-inj (ground arith) in
      let same : b ≡ b'\n' = (nat_beq_correct b b'\n').0 newline in
      (
        [],
        input,
        sym e ∙ sym (append-nil so_far),
        ap (λ x. x ∷ input) same,
        tt,
        subst (λ x. length x ≤ max_frame_bytes) e small,
      )
  | inr more ↦ elim (Bool-cases (length so_far == max_frame_bytes)) [
    | inl full ↦ absurd (ground arith)
    | inr room ↦
        let small' : length (so_far ++ b ∷ []) ≤ max_frame_bytes =
          ground (arith, length-push so_far b) in
        let (line, later, split, place, single, bounded) =
          read_from-line input (so_far ++ b ∷ []) bs small' (ground arith) in
        (
          b ∷ line,
          later,
          split ∙ push-append so_far line b,
          ap (λ x. b ∷ x) place,
          (more, single),
          bounded,
        )
  ]
]

read_from-frame :
    (line later so_far : List ℕ)
    → NoNewline line
    → length so_far + length line ≤ max_frame_bytes
    → read_from so_far (line ++ b'\n' ∷ later) ≡ frame (so_far ++ line)
unfolding read_from
read_from-frame [] later so_far single small = ap frame (sym (append-nil so_far))
read_from-frame (b ∷ line) later so_far (other, single) small =
    let next =
      read_from-frame line later (so_far ++ b ∷ []) single (omega (arith, length-push so_far b)) in
    let room : (length so_far == max_frame_bytes) ≡ false = ground arith in
    rw (other, room) (next ∙ ap frame (push-append so_far line b))

-- A frame is read exactly when the input has a newline after at most 2 ^ 20 bytes, and it is what
-- stands before the first newline.
pub read_frame-frame : (input bs : List ℕ) → (read_frame input ≡ frame bs) ↔ IsFrame input bs
unfolding read_frame
read_frame-frame input bs = (
  λ h.
      let (line, later, split, place, single, bounded) =
        read_from-line input [] bs (omega arith) h in
      record {
        later = later;
        line = subst (λ x. input ≡ x ++ b'\n' ∷ later) (sym split) place;
        single = subst NoNewline (sym split) single;
        bounded = bounded;
      },
  λ i.
      subst (λ x. read_from [] x ≡ frame bs) (sym i.line)
        (read_from-frame bs i.later [] i.single (omega (arith, i.bounded))),
)
