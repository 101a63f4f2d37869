-- ===== src/Tests/SafetyTests.antt =====
-- Instances of the theorems on admission and on undefined behaviour.
use kuro_net.Prelude.{
  false, inr, ◌≡◌, ◌⊎◌, inl, refl, some, List, [], ◌∷◌, nat_eq, list_eq, list_beq, arith,
}
use kuro_net.Prelude.Map.{lookup, emplace, erase}
use kuro_net.Prelude.Int.{pos}
use kuro_net.Text.{Bytes, codes}
use kuro_net.Exec.{undefined}
use kuro_net.Platform.{Platform}
use kuro_net.Tokens.{unit_seconds}
use kuro_net.Tokens.Stoi.{stoi}
use kuro_net.Session.{approve_client, token_active, write}
use kuro_net.World.{World, Client}
use kuro_net.Commands.Token.Safe.{IsOverflow}
use kuro_net.Commands.Clients.{execute, approve}
use kuro_net.Commands.Handler.{round}
use kuro_net.Commands.Handler.Safe.{round_undefined_iff}
use kuro_net.Process.{Event, clients_commands, happens, handle}
use kuro_net.Process.Safe.{IsExtractEvent, handle_undefined_iff}
use kuro_net.Process.Loop.{Reach, here, later, is_called, gives_client}
use kuro_net.Process.Loop.Admission.{Admits, Reach-Admits}
use kuro_net.Tests.Sample.{sample, world, client}

-- The operator approves one who waits.
abbrev approval : Event
approval = clients_commands (codes "client" ∷ codes "approve" ∷ codes "w" ∷ codes "perm.x" ∷ [])

abbrev approved : World sample
approved = happens approval world

abbrev newcomer : Client
newcomer = record (client (codes "w") 4) { token = codes "perm.x" }

newcomer_there : lookup (codes "w") approved.manager.clients ≡ some newcomer
unfolding happens execute approve approve_client token_active write lookup emplace erase list_beq
newcomer_there = refl

Reach-Admits_example :
    (lookup (codes "w") world.manager.clients ≡ some newcomer)
    ⊎ ((v v' : World sample) × Reach world v × Admits (codes "w") newcomer v v' × Reach v' approved)
Reach-Admits_example =
    Reach-Admits (codes "w") newcomer (later here (is_called (gives_client _) refl)) newcomer_there

abbrev long_time : List Bytes
long_time = codes "token" ∷ codes "create" ∷ codes "-temp" ∷ codes "-day" ∷ codes "24856" ∷ []

-- 24856 days are more seconds than an `int` holds.
long_time-IsOverflow : IsOverflow long_time
unfolding lookup emplace list_beq stoi unit_seconds
long_time-IsOverflow = record {
  long = omega arith;
  creates = refl;
  temporary = refl;
  over = record { value = pos 24856; seconds = 86400; read = refl; known = refl; too_large = refl };
}

blank_round : (round (some b'!') (codes "  ") world).0 ≡ undefined
blank_round =
    (round_undefined_iff (some b'!') (codes "  ") world).1
      (refl, inl ((λ e. cc), (refl, (refl, tt))))

-- A library that keeps an extracted element from being read.
abbrev strict : Platform
strict = record sample { reads_extracted = false }

abbrev strict_world : World strict
strict_world = record {
  sockets = world.sockets;
  next_socket = world.next_socket;
  logger = world.logger;
  manager = world.manager;
  draws = world.draws;
  steady_reads = world.steady_reads;
  token_time = world.token_time;
  pending = world.pending;
  token_command = world.token_command;
  clients_command = world.clients_command;
  command_parts = world.command_parts;
  chat_started = world.chat_started;
  acceptor = world.acceptor;
  terminal = record {
    tty = world.terminal.tty;
    oldt = world.terminal.oldt;
    newt = world.terminal.newt;
  };
}

approval_extracts : IsExtractEvent approval strict_world
unfolding lookup emplace list_beq token_active
approval_extracts = (
  _,
  refl,
  record {
    long = omega arith;
    approving = refl;
    extracts = record {
      unreadable = refl;
      active = refl;
      client = client (codes "w") 4;
      waited = refl;
    };
  },
)

strict_approval : (handle approval strict_world).0 ≡ undefined
strict_approval = (handle_undefined_iff approval strict_world).1 (inr approval_extracts)
