-- ===== src/Enroll/Recorder.antt =====
-- internal/cli/fleetctl/serve.go: the registry as the fleet that Enroll records in. The state is the registry file and the
-- number of records so far, which tells the clock and what the file system answers.
use f1337_mcp.Prelude.{ℕ, ◌+◌, Bool, false, Option, some, Text}
use f1337_mcp.Fleet.Registry.{
  Sandbox, Stored, exists_already, Answer, done, failed, Access, add, exists,
}
use f1337_mcp.Enroll.Service.{
  EnrolledSandbox, Recorded, recorded, name_taken, record_failed, FleetPorts,
}

pub record Registered : Type 0 where
  pub file : Option Stored
  pub records : ℕ

-- What the calls of the registry meet: the file system of the n-th record and of a check of a name before it, and the time
-- of the record and of its Add.
pub record Circumstances : Type 0 where
  pub record_access : ℕ → Access
  pub exists_access : ℕ → Text → Access
  pub record_time : ℕ → ℕ
  pub add_time : ℕ → ℕ

unfoldable pub registry_sandbox : EnrolledSandbox → ℕ → Sandbox
registry_sandbox sb now = record {
  name = sb.name;
  address = sb.address;
  labels = sb.labels;
  platform = record {
    os = sb.os;
    arch = sb.arch;
    kernel_version = sb.kernel_version;
    hostname = sb.hostname;
    path_separator = sb.path_separator;
  };
  insecure = false;
  enrolled_at = now;
  last_seen_at = 0;
  agent_version = sb.agent_version;
}

-- The translation of the registry's error.
unfoldable pub record_answer : Answer (Unit {0}) → Recorded
record_answer (done u) = recorded
record_answer (failed exists_already) = name_taken
record_answer (failed _) = record_failed

module _ (c : Circumstances) where
  -- `fleetRecorder.Record`
  unfoldable pub record_in_fleet : Registered → EnrolledSandbox → Registered × Recorded
  unfolding record_answer registry_sandbox
  record_in_fleet r sb =
      let (a, file) =
        add (c.record_access r.records) (c.add_time r.records)
          (registry_sandbox sb (c.record_time r.records)) r.file in
      (record { file = file; records = r.records + 1 }, record_answer a)

  unfoldable pub exists_in_fleet : Registered → Text → Bool
  exists_in_fleet r name = exists (c.exists_access r.records name) name r.file

  -- The fields `Names` and `Fleet` of the service.
  abbrev pub fleet_ports : FleetPorts Registered
  fleet_ports = record { exists_name = some exists_in_fleet; record_sandbox = some record_in_fleet }
