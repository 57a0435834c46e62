-- ===== src/Labels.antt =====
-- The guard of metric labels, traj_proxy/observability/label_guards.py: the run ids that are used
-- as labels, the least recently used first, and the ids for which the clean-up hooks were called.
pub mod Limits
use trajproxy.Base.{
  ℕ, String, Bool, true, false, Option, none, some, List, [], ◌∷◌, ◌++◌, string_eq, leb,
  if◌then◌else◌, ◌==◌, is_some, length,
}
use trajproxy.Base.Dict.{Dict, get, put, pop, pop_first, move_to_end}

pub record Guard : Type 0 where
  pub known : Dict String Unit
  pub cleaned : List String

abbrev pub max_run_ids : ℕ
max_run_ids = 30

unfoldable pub guard_init : Guard
guard_init = record { known = []; cleaned = [] }

unfoldable pub register_known_run_id : String → Guard → Guard
register_known_run_id run_id g = record g { known = put run_id tt g.known }

unfoldable pub unregister_known_run_id : String → Guard → Guard
unregister_known_run_id run_id g =
    if is_some (get run_id g.known)
    then record { known = pop run_id g.known; cleaned = run_id ∷ g.cleaned }
    else g

-- `popitem(last=False)` and the hooks
unfoldable pub evict_first : Guard → Guard
evict_first g = elim (pop_first g.known) [
  | none ↦ g
  | some ((run_id, u), rest) ↦ record { known = rest; cleaned = run_id ∷ g.cleaned }
]

unfoldable pub make_space : Guard → Guard
unfolding evict_first
make_space g = if leb max_run_ids (length g.known) then evict_first g else g

unfoldable pub safe_run_id_label : String → Guard → String × Guard
unfolding make_space
safe_run_id_label run_id g =
    let g' = make_space g in
    if run_id == ""
    then ("", g)
    else if is_some (get run_id g.known)
    then (run_id, record g { known = move_to_end run_id g.known })
    else (run_id, record g' { known = put run_id tt g'.known })

pub data Call : Type 0 where
  registered unregistered labelled : String → Call

unfoldable pub call_one : Call → Guard → Guard
unfolding register_known_run_id unregister_known_run_id safe_run_id_label
call_one (registered run_id) g = register_known_run_id run_id g
call_one (unregistered run_id) g = unregister_known_run_id run_id g
call_one (labelled run_id) g = (safe_run_id_label run_id g).1

unfoldable pub calls : List Call → Guard → Guard
unfolding call_one
calls [] g = g
calls (c ∷ cs) g = calls cs (call_one c g)
