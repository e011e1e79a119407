-- ===== src/Deployments/Crashes.antt =====
-- Stops between two writes: the pointers never lead to a record that is not there.
use mcp_broker.Prelude.{◌≡◌, subst, List, ◌++◌}
use mcp_broker.Deployments.Defs.{
  Bundle, Files, no_files, Write, write_all, writes_of, record_deployment, roll_back, recover_files,
}
use mcp_broker.Deployments.Fitting.{
  IsSound, Fits, Fits-prefix, write_all-IsSound, deploy-Fits, recover-Fits, roll_back-Fits,
}

-- The operations on the files of a broker.
pub data Operation : Type 0 where
  deploying : Bundle → Operation
  rolling_back recovering : Operation

abbrev pub operation_writes : Operation → Files → List Write
operation_writes (deploying b) f = writes_of (record_deployment b f)
operation_writes rolling_back f = writes_of (roll_back f)
operation_writes recovering f = writes_of (recover_files f)

operation-Fits : (o : Operation) (f : Files) → IsSound f → Fits (operation_writes o f) f.records
operation-Fits (deploying b) f h = deploy-Fits b f h
operation-Fits rolling_back f h = roll_back-Fits f h
operation-Fits recovering f h = recover-Fits f

-- The files that operations lead to from none, each of them carried out or stopped behind some of
-- its writes.
pub data Reaches : Files → Type 0 where
  at_first : Reaches no_files
  after :
      (o : Operation) (f : Files) (ws rest : List Write)
      → Reaches f
      → operation_writes o f ≡ ws ++ rest
      → Reaches (write_all ws f)

-- Whatever operations run, and wherever each of them is stopped, the active and the previous pointer
-- lead to records of deployments that are there.
pub Reaches-IsSound : {f : Files} → Reaches f → IsSound f
Reaches-IsSound at_first = record { active = tt; previous = tt }
Reaches-IsSound (after o f ws rest reached split) =
    let h = Reaches-IsSound reached in
    let fits : Fits (ws ++ rest) f.records =
      subst (λ us. Fits us f.records) split (operation-Fits o f h) in
    write_all-IsSound ws f (Fits-prefix ws rest f.records fits) h
