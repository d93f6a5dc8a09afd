-- ===== src/DeepCopy/Copies.antt =====
-- The loops and the ways to build a struct keep deep copies deep.
use auth_explore.Base.{
  ℕ, ◌+◌, ◌≤◌, ◌≡◌, ◌≢◌, refl, sym, ap, ◌∙◌, none, some, List, [], ◌∷◌, map, All, arith,
}
use mathlib.Core.Path.{subst}
use auth_explore.DeepCopy.Arrays.{Heap, set_cell, copy_value, copy_each, copy_slice}
use auth_explore.DeepCopy.Kinds.{
  Same, Below, Between, Kind, Copied, IsDeepCopy, value_kind, map-Same, list_kind, slice_kind,
  pair_kind, struct_kind,
}

set_cell_self : {Cell : Type 0} (q : ℕ) (v : Cell) (f : ℕ → Cell) → set_cell q v f q ≡ v
set_cell_self q v f = ground arith

set_cell-frame :
    {Cell : Type 0} (q a : ℕ) (v : Cell) (f : ℕ → Cell) → a ≢ q → set_cell q v f a ≡ f a
set_cell-frame q a v f h = ground arith

module _ {Cell : Type 0} where
  pub value-IsDeepCopy : {T : Type 0} → IsDeepCopy {Cell = Cell} {T = T} value_kind copy_value
  value-IsDeepCopy t h l = record {
    equal = refl;
    fresh = tt;
    kept = λ a b. refl;
    grows = omega arith;
  }

  -- One copy after another.
  pub both-Copied :
      {A B : Type 0} (K : Kind Cell A) (J : Kind Cell B) (a a' : A) (b b' : B)
      (h h' h'' : Heap Cell)
      → J.lives (Below h.next) h b
      → Copied K a h a' h'
      → (J.lives (Below h'.next) h' b → Copied J b h' b' h'')
      → Copied (pair_kind K J) (a, b) h (a', b') h''
  both-Copied K J a a' b b' h h' h'' b_lives first rest =
      let b_lives' : J.lives (Below h'.next) h' b =
        J.lives_same (Below h.next) (Below h'.next) h h' b first.kept
          (λ x lt. let g = first.grows in omega arith) b_lives in
      let second = rest b_lives' in
      let same : J.at h' b ≡ J.at h b = J.at_same (Below h.next) h h' b first.kept b_lives in
      let above : K.lives (Between h.next h'.next) h' a' = first.fresh in
      let old : Same (Between h.next h'.next) h' h'' = λ x lt. second.kept x (omega arith) in
      let stays : K.at h'' a' ≡ K.at h' a' =
        K.at_same (Between h.next h'.next) h' h'' a' old above in
      record {
        equal =
            ap (λ (v : K.Value). (v, J.at h'' b')) (stays ∙ first.equal)
            ∙ ap (λ (v : J.Value). (K.at h a, v)) (second.equal ∙ same);
        fresh = (
          K.lives_same (Between h.next h'.next) (Between h.next h''.next) h' h'' a' old
              (λ x r. let g = second.grows in omega arith) above,
          J.lives_same (Between h'.next h''.next) (Between h.next h''.next) h'' h'' b' (λ x r. refl)
              (λ x r. let g = first.grows in omega arith) second.fresh,
        );
        kept = λ x lt. second.kept x (let g = first.grows in omega arith) ∙ first.kept x lt;
        grows = let g = first.grows in let g' = second.grows in omega arith;
      }

  pub struct-Copied :
      {T F R : Type 0} (K : Kind Cell F) (fields : T → F) (others : T → R) (t t' : T)
      (h h' : Heap Cell)
      → others t' ≡ others t
      → Copied K (fields t) h (fields t') h'
      → Copied (struct_kind K fields others) t h t' h'
  struct-Copied K fields others t t' h h' e c = record {
    equal = rw e (ap (λ (v : K.Value). (others t, v)) c.equal);
    fresh = c.fresh;
    kept = c.kept;
    grows = c.grows;
  }

  pub copy_each-IsDeepCopy :
      {T : Type 0} (K : Kind Cell T) (copy : T → Heap Cell → T × Heap Cell)
      → IsDeepCopy K copy
      → IsDeepCopy (list_kind K) (copy_each copy)
  unfolding copy_each
  copy_each-IsDeepCopy K copy deep [] h l = record {
    equal = refl;
    fresh = tt;
    kept = λ a b. refl;
    grows = omega arith;
  }
  copy_each-IsDeepCopy K copy deep (t ∷ ts) h l =
      let h' = (copy t h).1 in
      let both =
        both-Copied K (list_kind K) t (copy t h).0 ts (copy_each copy ts h').0 h h'
          (copy_each copy ts h').1 l.1 (deep t h l.0) (copy_each-IsDeepCopy K copy deep ts h') in
      record {
        equal = ap (λ (q : K.Value × List K.Value). q.0 ∷ q.1) both.equal;
        fresh = both.fresh;
        kept = both.kept;
        grows = both.grows;
      }

  pub copy_slice-IsDeepCopy :
      {T : Type 0} (K : Kind Cell T) (get : Cell → List T) (put : List T → Cell)
      (copy : T → Heap Cell → T × Heap Cell)
      → ((ts : List T) → get (put ts) ≡ ts)
      → IsDeepCopy K copy
      → IsDeepCopy (slice_kind K get) (copy_slice get put copy)
  unfolding copy_slice
  copy_slice-IsDeepCopy K get put copy get-put deep none h l = record {
    equal = refl;
    fresh = tt;
    kept = λ a b. refl;
    grows = omega arith;
  }
  copy_slice-IsDeepCopy {T} K get put copy get-put deep (some p) h l =
      let from = get (h.cell p) in
      let h₁ : Heap Cell = record h { next = h.next + 1 } in
      let one =
        (list_kind K).lives_same (Below h.next) (Below h₁.next) h h₁ from (λ a r. refl)
          (λ a r. omega arith) l.1 in
      let c = copy_each-IsDeepCopy K copy deep from h₁ one in
      let ts = (copy_each copy from h₁).0 in
      let h' = (copy_each copy from h₁).1 in
      let h₂ : Heap Cell = record h' { cell = set_cell h.next (put ts) h'.cell } in
      let grown : h.next + 1 ≤ h'.next = c.grows in
      let filled : get (h₂.cell h.next) ≡ ts =
        ap get (set_cell_self h.next (put ts) h'.cell) ∙ get-put ts in
      let stays : Same (Between h₁.next h'.next) h' h₂ =
        λ a r. set_cell-frame h.next a (put ts) h'.cell (λ e. omega arith) in
      record {
        equal = ap some (
            ap (map (K.at h₂)) filled
            ∙ map-Same K (Between h₁.next h'.next) h' h₂ ts stays c.fresh
            ∙ c.equal
            ∙ map-Same K (Below h.next) h h₁ from (λ a r. refl) l.1);
        fresh = (
          (omega arith, omega arith),
          subst (λ (us : List T). All (K.lives (Between h.next h'.next) h₂) us) (sym filled)
              ((list_kind K).lives_same (Between h₁.next h'.next) (Between h.next h'.next) h' h₂ ts
                stays (λ a r. omega arith) c.fresh),
        );
        kept = λ a r.
            set_cell-frame h.next a (put ts) h'.cell (λ e. omega arith) ∙ c.kept a (omega arith);
        grows = omega arith;
      }
