-- ===== src/HistoryPreviews/Permits.antt =====
-- internal/application/history_previews.go: how many permits there are, for how long, and for whom.
use my_pol_go_backend.Prelude.{
  ℕ, ◌+◌, ◌≤◌, ◌<◌, String, Bool, true, false, not, ◌&&◌, ◌||◌, Option, none, some, List, [], ◌∷◌,
  ◌≡◌, refl, ◌∙◌, sym, subst, get_or, Bool-cases, String-cases, ap, inl, inr, arith, ltb, leb, ◌==◌,
  if◌then◌else◌, if_holds, if_fails, if_intro, is_some, eq_iff,
}
use my_pol_go_backend.Prelude.Lists.{length}
use my_pol_go_backend.Prelude.Dict.{
  Dict, lookup, insert, matches, length-delete_where, lookup-insert, lookup-delete_where, Distinct,
  delete_where-Distinct, insert-Distinct, delete_absent,
}
use my_pol_go_backend.Permission.{permission_edit, permission_owner}
use my_pol_go_backend.Connection.{Connection}
use my_pol_go_backend.HistoryPreviews.{
  HistoryPreviewPermit, PreviewRequest, PreviewLibrary, RegisterError, register, revoke, resolve,
  with_request, with_permit, answer_of, malformed, delete_expired, is_invalid, unix_ms,
}

-- No permit is there twice, and there are not too many.
pub record IsPermits (d : Dict HistoryPreviewPermit) : Type 0 where
  pub distinct : Distinct d
  pub bounded : length d ≤ 1024

length-insert_fresh :
    (k : String) (p : HistoryPreviewPermit) (d : Dict HistoryPreviewPermit)
    → is_some (lookup k d) ≡ false
    → length (insert k p d) ≡ length d + 1
unfolding insert
length-insert_fresh k p d h = ground (arith, delete_absent k d)

delete_expired-IsPermits :
    (now : ℕ) (d : Dict HistoryPreviewPermit) → IsPermits d → IsPermits (delete_expired now d)
unfolding delete_expired
delete_expired-IsPermits now d h =
    let dead : HistoryPreviewPermit → Bool = λ p. leb p.expires_at (unix_ms now) in
    record {
      distinct = delete_where-Distinct dead d h.distinct;
      bounded = omega (arith, length-delete_where dead d, h.bounded);
    }

revoke-IsPermits :
    (n u : String) (d : Dict HistoryPreviewPermit) → IsPermits d → IsPermits (revoke n u d)
unfolding revoke
revoke-IsPermits n u d h =
    let gone : HistoryPreviewPermit → Bool = λ p. p.note_id == n && (u == "" || p.user_id == u) in
    record {
      distinct = delete_where-Distinct gone d h.distinct;
      bounded = omega (arith, length-delete_where gone d, h.bounded);
    }

insert_fresh-IsPermits :
    (p : HistoryPreviewPermit) (d : Dict HistoryPreviewPermit)
    → IsPermits d
    → leb 1024 (length d) ≡ false
    → is_some (lookup p.id d) ≡ false
    → IsPermits (insert p.id p d)
insert_fresh-IsPermits p d h room fresh = record {
  distinct = insert-Distinct p.id p d h.distinct;
  bounded = ground (arith, room, length-insert_fresh p.id p d fresh);
}

-- A live permit is one that a sweep leaves.
delete_expired_live :
    (id : String) (q : HistoryPreviewPermit) (now : ℕ) (d : Dict HistoryPreviewPermit)
    → Distinct d
    → lookup id d ≡ some q
    → unix_ms now < q.expires_at
    → lookup id (delete_expired now d) ≡ some q
unfolding delete_expired
delete_expired_live id q now d u e live =
    let dead : HistoryPreviewPermit → Bool = λ p. leb p.expires_at (unix_ms now) in
    lookup-delete_where dead id d u
    ∙ rw e (if_fails (leb q.expires_at (unix_ms now)) none (some q) (ground arith))

apart_kept :
    (k id : String) (p q : HistoryPreviewPermit) (d : Dict HistoryPreviewPermit)
    → is_some (lookup k d) ≡ false
    → lookup id d ≡ some q
    → (if k == id then some p else lookup id d) ≡ some q
apart_kept k id p q d fresh e = elim (String-cases k id) [
  | inl x ↦ (let there : lookup k d ≡ some q = ap (λ y. lookup y d) x ∙ e in absurd (ground arith))
  | inr x ↦ rw x e
]

-- The calls that change the permits.
pub data PermitCall : Type 0 where
  registering : HistoryPreviewPermit → ℕ → PermitCall
  revoking : String → String → PermitCall

none_some : {A : Type 0} (q : HistoryPreviewPermit) → none ≡ some q → A
none_some q e = absurd (ground arith)

or_more : (a b c : Bool) → (a || b) ≡ true → (a || b || c) ≡ true
or_more a b c h = ground arith

kept_apart :
    (gone : HistoryPreviewPermit → Bool) (q : HistoryPreviewPermit)
    (o : Option HistoryPreviewPermit)
    → (if matches gone o then none else o) ≡ some q
    → gone q ≡ false
kept_apart gone q none e = absurd (ground arith)
kept_apart gone q (some p) e = elim (Bool-cases (gone p)) [
  | inl x ↦ none_some q (sym (if_holds (gone p) none (some p) x) ∙ e)
  | inr x ↦
      subst (λ y. gone y ≡ false) (ap (get_or p) (sym (if_fails (gone p) none (some p) x) ∙ e)) x
]

same_user : (u a b : String) → (b == u) ≡ true → (a == b) ≡ true → (a == u) ≡ true
same_user u a b h k = ground (arith, eq_iff b u, eq_iff a b, eq_iff a u)

denied :
    (note all own claimed same : Bool)
    → (note && (all || own)) ≡ false
    → (all || claimed) ≡ true
    → (claimed ≡ true → same ≡ true → own ≡ true)
    → (not note || not same) ≡ true
denied note all own claimed same h k l = ground arith

-- A request by a connection is refused for a permit of another note or another user.
revoked_permit :
    (n u id : String) (d : Dict HistoryPreviewPermit) (c : Connection)
    → Distinct d
    → c.note_id ≡ n
    → (u == "" || c.user_id == u) ≡ true
    → (q : HistoryPreviewPermit) → lookup id (revoke n u d) ≡ some q
    → (not (q.note_id == c.note_id) || not (q.user_id == c.user_id)) ≡ true
unfolding revoke
revoked_permit n u id d c h same user q e =
    let gone : HistoryPreviewPermit → Bool = λ p. p.note_id == n && (u == "" || p.user_id == u) in
    let left : gone q ≡ false =
      kept_apart gone q (lookup id d) (sym (lookup-delete_where gone id d h) ∙ e) in
    let at_note : (q.note_id == c.note_id) ≡ (q.note_id == n) = ap (λ x. q.note_id == x) same in
    rw at_note (
      denied (q.note_id == n) (u == "") (q.user_id == u) (c.user_id == u) (q.user_id == c.user_id)
        left user (same_user u q.user_id c.user_id))

module _ (lib : PreviewLibrary) where
  -- What holds of the map at each end of a registration holds after it.
  by_register :
      (P : Dict HistoryPreviewPermit → Type 0) (p : HistoryPreviewPermit) (now : ℕ)
      (d : Dict HistoryPreviewPermit)
      → P d
      → P (delete_expired now d)
      → ((leb 1024 (length (delete_expired now d)) ≡ false)
          → (is_some (lookup p.id (delete_expired now d)) ≡ false)
          → P (insert p.id p (delete_expired now d)))
      → P (register lib p now d).1
  unfolding register
  by_register P p now d refused swept inserted =
      let Q : Option RegisterError × Dict HistoryPreviewPermit → Type 0 = λ r. P r.1 in
      if_intro Q (is_invalid lib p now) _ _ (λ _. refused)
        (λ _.
          if_intro Q (leb 1024 (length (delete_expired now d))) _ _ (λ _. swept)
            (λ room.
              if_intro Q (is_some (lookup p.id (delete_expired now d))) _ _ (λ _. swept)
                (λ fresh. inserted room fresh)))

  register-IsPermits :
      (p : HistoryPreviewPermit) (now : ℕ) (d : Dict HistoryPreviewPermit)
      → IsPermits d
      → IsPermits (register lib p now d).1
  unfolding register
  register-IsPermits p now d h =
      let d' = delete_expired now d in
      let swept = delete_expired-IsPermits now d h in
      by_register IsPermits p now d h swept
        (λ room fresh. insert_fresh-IsPermits p d' swept room fresh)

  -- No registration, refused or not, drops or replaces a permit that has not expired.
  pub register_keeps_live :
      (p : HistoryPreviewPermit) (id : String) (q : HistoryPreviewPermit) (now : ℕ)
      (d : Dict HistoryPreviewPermit)
      → IsPermits d
      → lookup id d ≡ some q
      → unix_ms now < q.expires_at
      → lookup id (register lib p now d).1 ≡ some q
  register_keeps_live p id q now d h e live =
      let d' = delete_expired now d in
      let kept = delete_expired_live id q now d h.distinct e live in
      by_register (λ m. lookup id m ≡ some q) p now d e kept
        (λ room fresh. lookup-insert p.id id p d' ∙ apart_kept p.id id p q d' fresh kept)

  unfoldable pub permit_calls :
      List PermitCall → Dict HistoryPreviewPermit → Dict HistoryPreviewPermit
  unfolding register revoke
  permit_calls [] d = d
  permit_calls (registering p now ∷ cs) d = permit_calls cs (register lib p now d).1
  permit_calls (revoking n u ∷ cs) d = permit_calls cs (revoke n u d)

  permit_calls_kept :
      (cs : List PermitCall) (d : Dict HistoryPreviewPermit)
      → IsPermits d
      → IsPermits (permit_calls cs d)
  unfolding permit_calls
  permit_calls_kept [] d h = h
  permit_calls_kept (registering p now ∷ cs) d h =
      permit_calls_kept cs _ (register-IsPermits p now d h)
  permit_calls_kept (revoking n u ∷ cs) d h = permit_calls_kept cs _ (revoke-IsPermits n u d h)

  -- After any calls of an empty table, it has at most 1024 permits, and none twice.
  pub permit_calls-IsPermits : (cs : List PermitCall) → IsPermits (permit_calls cs [])
  permit_calls-IsPermits cs =
      permit_calls_kept cs [] (record { distinct = tt; bounded = omega arith })

  by_permit :
      (c : Connection) (r : PreviewRequest) (now : ℕ) (o : Option HistoryPreviewPermit)
      → ((q : HistoryPreviewPermit)
          → o ≡ some q
          → (not (q.note_id == c.note_id) || not (q.user_id == c.user_id)) ≡ true)
      → with_permit lib c r now o ≡ none
  by_permit c r now none h = refl
  by_permit c r now (some q) h =
      if_holds
        (not (q.note_id == c.note_id)
          || not (q.user_id == c.user_id)
          || leb q.expires_at (unix_ms now))
        none (lib.encode (answer_of lib r q))
        (or_more (not (q.note_id == c.note_id)) (not (q.user_id == c.user_id))
          (leb q.expires_at (unix_ms now)) (h q refl))

  by_request :
      (c : Connection) (now : ℕ) (d : Dict HistoryPreviewPermit) (o : Option PreviewRequest)
      → ((r : PreviewRequest) → with_permit lib c r now (lookup r.permit_id d) ≡ none)
      → with_request lib c now d o ≡ none
  by_request c now d none h = refl
  by_request c now d (some r) h =
      if_intro (λ x. x ≡ none) (malformed lib r) none _ (λ _. refl)
        (λ _.
          if_intro (λ x. x ≡ none)
            (not (c.permission == permission_edit) && not (c.permission == permission_owner)) none _
            (λ _. refl) (λ _. h r))

  -- After a revocation for a note, and for one user or, with no user, for all, no request of such a
  -- user's connection on the note is answered, until a new permit is registered.
  pub resolve-revoke :
      (n u raw : String) (c : Connection) (now : ℕ) (d : Dict HistoryPreviewPermit)
      → IsPermits d
      → c.note_id ≡ n
      → (u == "" || c.user_id == u) ≡ true
      → resolve lib c raw now (revoke n u d) ≡ none
  unfolding resolve
  resolve-revoke n u raw c now d h same user =
      if_intro (λ x. x ≡ none) (ltb 1024 (lib.text_length raw)) none _ (λ _. refl)
        (λ _. by_request c now (revoke n u d) (lib.decode raw) (λ r.
          by_permit c r now (lookup r.permit_id (revoke n u d))
            (revoked_permit n u r.permit_id d c h.distinct same user)))
