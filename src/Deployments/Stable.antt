-- ===== src/Deployments/Stable.antt =====
-- Facts about the state that the steps of a goroutine cannot change: events of its own deployment
-- other than the last one, the time, and what Vault holds.
use bandolier.Prelude.{suc, String, Bool, true, false, ◌≡◌, refl, List, [], ◌∷◌, insert, erase}
use bandolier.Result.{Result, ctx_cancelled, failure}
use bandolier.Hub.{Event, EventType, deployment_complete}
use bandolier.World.{Ctx, Env, World, Command, Line, stdout, playbook_event, Secret}
use bandolier.World.Calls.{
  tick, ctx_done, run_command, read_output, vault_get, vault_put, vault_delete, vault_issue, query,
}
use bandolier.Store.Tables.{Db}
use bandolier.World.Triples.{Spec}
use bandolier.World.Rules.{Ends-always, guarded-Ends}
use bandolier.Deployments.Effects.{emit, emit_lines, line_event, run_streamed}

abbrev pub is_complete : EventType → Bool
is_complete deployment_complete = true
is_complete _ = false

pub record Stable (dep : String) (I : World → Type 0) : Type 0 where
  pub on_emit : (e : Event) (w : World) → is_complete e.type ≡ false → I w → I (emit dep e w)
  pub on_call :
      (vault : List (String × Secret)) (w : World)
      → I w
      → I (record w { clock = suc w.clock; vault = vault })

module _ {dep : String} {I : World → Type 0} (st : Stable dep I) where
  on_tick : (w : World) → I w → I (tick w)
  on_tick w i = st.on_call w.vault w i

  module _ (env : Env) where
    pub run_command-Spec : (c : Command) → Spec I I I (run_command env c)
    unfolding run_command
    run_command-Spec c = record { at = λ w i. Ends-always I _ (tick w) (on_tick w i) }

    pub read_output-Spec : (c : Command) → Spec I I I (read_output env c)
    unfolding read_output
    read_output-Spec c = record { at = λ w i. Ends-always I _ (tick w) (on_tick w i) }

    pub vault_get-Spec : (ctx : Ctx) (path : String) → Spec I I I (vault_get env ctx path)
    unfolding vault_get
    vault_get-Spec ctx path = record {
      at = λ w i. guarded-Ends I (ctx_done ctx w.clock) ctx_cancelled _ (tick w) (on_tick w i) (
          guarded-Ends I (env.vault_fails w.clock) (failure "vault get") _ (tick w) (on_tick w i)
            (Ends-always I _ (tick w) (on_tick w i)));
    }

    pub vault_put-Spec :
        (ctx : Ctx) (path : String) (s : Secret) → Spec I I I (vault_put env ctx path s)
    unfolding vault_put
    vault_put-Spec ctx path s = record {
      at = λ w i. guarded-Ends I (ctx_done ctx w.clock) ctx_cancelled _ (tick w) (on_tick w i) (
          guarded-Ends I (env.vault_fails w.clock) (failure "vault put") _ (tick w) (on_tick w i)
            (st.on_call (insert path s w.vault) w i));
    }

    pub vault_delete-Spec : (ctx : Ctx) (path : String) → Spec I I I (vault_delete env ctx path)
    unfolding vault_delete
    vault_delete-Spec ctx path = record {
      at = λ w i. guarded-Ends I (ctx_done ctx w.clock) ctx_cancelled _ (tick w) (on_tick w i) (
          guarded-Ends I (env.vault_fails w.clock) (failure "vault delete") _ (tick w) (on_tick w i)
            (st.on_call (erase path w.vault) w i));
    }

    pub query-Spec :
        {A : Type 0} (ctx : Ctx) (body : Db → Result A) → Spec I I I (query env ctx body)
    unfolding query
    query-Spec ctx body = record {
      at = λ w i. guarded-Ends I (ctx_done ctx w.clock) ctx_cancelled _ (tick w) (on_tick w i) (
          guarded-Ends I (env.sql_fails w.clock) (failure "database error") _ (tick w) (on_tick w i)
            (Ends-always I _ (tick w) (on_tick w i)));
    }

    pub vault_issue-Spec :
        (ctx : Ctx) (name role : String) → Spec I I I (vault_issue env ctx name role)
    unfolding vault_issue
    vault_issue-Spec ctx name role = record {
      at = λ w i. guarded-Ends I (ctx_done ctx w.clock) ctx_cancelled _ (tick w) (on_tick w i) (
          guarded-Ends I (env.vault_fails w.clock) (failure "vault write") _ (tick w) (on_tick w i)
            (on_tick w i));
    }

    emit_lines-Stable : (ls : List Line) (w : World) → I w → I (emit_lines dep ls w)
    unfolding emit_lines
    emit_lines-Stable [] w i = i
    emit_lines-Stable (stdout s ∷ ls) w i =
        emit_lines-Stable ls _ (st.on_emit (line_event (stdout s)) w refl i)
    emit_lines-Stable (playbook_event ∷ ls) w i =
        emit_lines-Stable ls _ (st.on_emit (line_event playbook_event) w refl i)

    pub run_streamed-Spec : (c : Command) → Spec I I I (run_streamed env dep c)
    unfolding run_streamed run_command
    run_streamed-Spec c = record {
      at = λ w i.
          let w' = emit_lines dep (env.printed c w.clock) w in
          Ends-always I _ (tick w') (on_tick w' (emit_lines-Stable (env.printed c w.clock) w i));
    }
