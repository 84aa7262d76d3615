-- ===== src/Policy/Saved.antt =====
-- What a restart brings back of the policy and the audit entries, which the files have.
use wherecode.Prelude.{
  ℕ, suc, String, ◌≡◌, refl, sym, ap, ◌∙◌, inl, inr, false, all, length, length-append, arith,
  if◌then◌else◌, Option, none, some, List, [], ◌∷◌, Bool-cases,
}
use mathlib.Core.Option.{some-injective}
use wherecode.Py.{Outcome, returned, raised, ◌>>=◌}
use wherecode.Py.Triple.{Ends}
use wherecode.Policy.State.{
  Signed, Audit, Policy, Payload, Host, PolicyStore, Step, policy_now, policy_id, record_audit,
}
use wherecode.Policy.Normalize.{normalize_policy, to_payload, normalize_policy-to_payload}
use wherecode.Policy.Rollback.{
  RollbackResult, update_entry, write_policy, update_policy, get_policy,
}
use wherecode.Policy.Rows.{fits_line, audit_fits, read_rows}
use wherecode.Policy.Logged.{
  IsLogged, all-append_last, reason-breaks, append-IsLogged, read-logged, read-IsLogged,
}
use wherecode.Policy.Restart.{load_policy, load_lists, restart}
use wherecode.Policy.History.{
  Call, update, rollback, create_approval, approve, consume, see_approvals, see_stats, purge,
  collect_audits, start_again, perform, history,
}
use wherecode.Policy.Paths.{is_new}
use wherecode.Policy.Effects.{IsUntouched, IsRestored, HasEffect}
use wherecode.Policy.Effects.Actions.{Untouching, consume-Untouching, untouched}
use wherecode.Policy.Effects.Rolling.{rollback_to_audit-HasEffect}
use wherecode.Policy.Effects.Quiet.{
  create-Untouching, approve-Untouching, list-Untouching, stats-Untouching, purge-Untouching,
  gc-Untouching,
}

-- The policy file is that of the policy in memory, and the audit file that of the audit entries,
-- unless it cannot be read.
pub record IsSaved (s : PolicyStore) : Type 0 where
  pub policy : s.files.policy_file ≡ some (to_payload s.policy)
  pub audits : IsLogged s.files.audit_file s.audit_entries

-- The policy and the files are those of `s`, and so are the audit entries, where the file of `s` can
-- be read; where it cannot, there are none.
pub record IsReloaded (s t : PolicyStore) : Type 0 where
  pub policy : t.policy ≡ s.policy
  pub audits : t.audit_entries ≡ (if all audit_fits s.files.audit_file then s.audit_entries else [])
  pub policy_file : t.files.policy_file ≡ s.files.policy_file
  pub audit_file : t.files.audit_file ≡ s.files.audit_file

untouched-IsSaved : {s t : PolicyStore} → IsSaved s → IsUntouched s t → IsSaved t
untouched-IsSaved h k = record {
  policy = k.policy_file ∙ h.policy ∙ ap (λ (p : Policy). some (to_payload p)) (sym k.policy);
  audits = rw (k.audit_file, k.audits) h.audits;
}

restored-IsSaved :
    {w : Host} {id : String} {key : Option String} {r : RollbackResult} {s t : PolicyStore}
    → IsSaved s
    → IsRestored w id key s t r
    → IsSaved t
restored-IsSaved {s = s} h k = record {
  policy = k.policy_file;
  audits =
      rw (k.audit_file, k.audits)
        (append-IsLogged s.files.audit_file s.audit_entries k.entry h.audits);
}

module _ (w : Host) where
  quiet-IsSaved :
      {A : Type 0} (m : Step A) (s : PolicyStore)
      → ((s' : PolicyStore) → Untouching w s' m)
      → IsSaved s
      → IsSaved (m s).1
  quiet-IsSaved m s quiet h = untouched-IsSaved h ((quiet s).at s (untouched w s refl))

  effect-IsSaved :
      (s t : PolicyStore) (id : String) (key : Option String) (o : Outcome RollbackResult)
      → IsSaved s
      → Ends (HasEffect w id key s) (IsUntouched s) o t
      → IsSaved t
  effect-IsSaved s t id key (raised e) h k = untouched-IsSaved h k
  effect-IsSaved s t id key (returned r) h k = elim (Bool-cases (is_new r)) [
    | inl new ↦ restored-IsSaved h (rw new at k)
    | inr old ↦ untouched-IsSaved h (untouched w s (rw old at k))
  ]

  update-IsSaved :
      (p : Payload) (by : String) (reason : Option String) (s : PolicyStore)
      → IsSaved s
      → IsSaved (update_policy w p by reason s).1
  unfolding update_policy ◌>>=◌ policy_now write_policy policy_id record_audit get_policy
  update-IsSaved p by reason s h = record {
    policy = refl;
    audits = append-IsLogged s.files.audit_file s.audit_entries _ h.audits;
  }

  -- Loading the policy that was written.
  load_policy-written :
      (file : Option Payload) (now : ℕ) (s : PolicyStore)
      → file ≡ some (to_payload s.policy)
      → IsUntouched s (load_policy w file now s)
  unfolding load_policy
  load_policy-written none now s e = cc
  load_policy-written (some p) now s e = record {
    policy =
        rw (some-injective p (to_payload s.policy) e)
          (normalize_policy-to_payload w.int_of_text s.policy);
    audits = refl;
    policy_file = refl;
    audit_file = refl;
  }

  restart-IsReloaded :
      (ttl : Signed) (s : PolicyStore) → IsSaved s → IsReloaded s (restart w ttl s).1
  unfolding restart ◌>>=◌ policy_now load_lists
  restart-IsReloaded ttl s h =
      let u : PolicyStore = record s { clock_reads = suc s.clock_reads } in
      let k : IsUntouched u (load_policy w s.files.policy_file (w.now s.clock_reads) u) =
        load_policy-written s.files.policy_file (w.now s.clock_reads) u h.policy in
      record {
        policy = k.policy;
        audits =
            ap (read_rows audit_fits) k.audit_file
            ∙ read-logged s.files.audit_file s.audit_entries h.audits;
        policy_file = k.policy_file;
        audit_file = k.audit_file;
      }

  restart-IsSaved : (ttl : Signed) (s : PolicyStore) → IsSaved s → IsSaved (restart w ttl s).1
  restart-IsSaved ttl s h =
      let k : IsReloaded s (restart w ttl s).1 = restart-IsReloaded ttl s h in
      record {
        policy = k.policy_file ∙ h.policy ∙ ap (λ (p : Policy). some (to_payload p)) (sym k.policy);
        audits =
            rw
              (
                k.audit_file,
                k.audits ∙ sym (read-logged s.files.audit_file s.audit_entries h.audits),
              )
              (read-IsLogged s.files.audit_file);
      }

  perform-IsSaved : (call : Call) (s : PolicyStore) → IsSaved s → IsSaved (perform w call s)
  unfolding perform
  perform-IsSaved (update p by reason) s h = update-IsSaved p by reason s h
  perform-IsSaved (rollback id by reason dry key approval) s h =
      effect-IsSaved s _ id key _ h (rollback_to_audit-HasEffect w s id by reason dry key approval)
  perform-IsSaved (create_approval id by reason) s h =
      quiet-IsSaved _ s (λ s'. create-Untouching w s' id by reason) h
  perform-IsSaved (approve id by) s h = quiet-IsSaved _ s (λ s'. approve-Untouching w s' id by) h
  perform-IsSaved (consume id audit_id by) s h =
      quiet-IsSaved _ s (λ s'. consume-Untouching w s' id audit_id by) h
  perform-IsSaved (see_approvals limit status) s h =
      quiet-IsSaved _ s (λ s'. list-Untouching w s' limit status) h
  perform-IsSaved see_stats s h = quiet-IsSaved _ s (λ s'. stats-Untouching w s') h
  perform-IsSaved (purge used expired dry older by) s h =
      quiet-IsSaved _ s (λ s'. purge-Untouching w s' used expired dry older by) h
  perform-IsSaved (collect_audits dry older n by) s h =
      quiet-IsSaved _ s (λ s'. gc-Untouching w s' dry older n by) h
  perform-IsSaved (start_again ttl) s h = restart-IsSaved ttl s h

  history-IsSaved : (calls : List Call) (s : PolicyStore) → IsSaved s → IsSaved (history w calls s)
  unfolding history
  history-IsSaved [] s h = h
  history-IsSaved (call ∷ calls) s h =
      history-IsSaved calls (perform w call s) (perform-IsSaved call s h)

  -- Where the policy file has the policy in memory, and the audit file, unless it cannot be read, has
  -- the audit entries in memory, a restart after any history of calls and restarts, failing calls
  -- included, leaves the policy and the files as they are. Where each audit entry in the file stays on its line, it brings back the audit entries as
  -- they were; where one does not, there are none after it.
  pub history-restart :
      (calls : List Call) (ttl : Signed) (s : PolicyStore)
      → IsSaved s
      → IsReloaded (history w calls s) (restart w ttl (history w calls s)).1
  history-restart calls ttl s h =
      restart-IsReloaded ttl (history w calls s) (history-IsSaved calls s h)

  -- Where the reason of an update does not stay on its line, the audit entries are lost at the next
  -- restart, whatever they were, while the entry of the update is still in the file.
  pub update_policy-IsLost :
      (p : Payload) (by reason : String) (ttl : Signed) (s : PolicyStore)
      → fits_line reason ≡ false
      → ((restart w ttl (update_policy w p by (some reason) s).1).1.audit_entries ≡ [])
        × (length (restart w ttl (update_policy w p by (some reason) s).1).1.files.audit_file
            ≡ suc (length s.files.audit_file))
  unfolding update_policy restart ◌>>=◌ policy_now write_policy policy_id record_audit get_policy
      load_lists load_policy read_rows
  update_policy-IsLost p by reason ttl s broken =
      let e : Audit =
        update_entry (w.new_id "map" s.issued_ids) (w.now s.clock_reads) by (some reason)
          (normalize_policy w.int_of_text p) in
      (
        rw (all-append_last s.files.audit_file e (reason-breaks e broken refl)) refl,
        rw (length-append s.files.audit_file (e ∷ [])) (omega arith),
      )
