-- ===== src/Lib.antt =====
-- InputShare shares one keyboard and mouse among several machines. This library models the parts of
-- it that decide: the workspace document that the machines keep in step, the geometry by which the
-- cursor crosses from one machine to the next, the router that hands the pointer over and swallows
-- the local keyboard meanwhile, the files that the configuration is kept in, the actor that owns what is
-- known about peers, the connection to one of them from its handshake on, the agent that holds the
-- document and decides who is admitted, the capture and replay of input, the desktop
-- shell, and the command line.
--
-- The parts and their files:
--   Base        names shared by all modules; integers over the native numbers; lists.
--   BTreeMap    the standard library's ordered map, as a list in the order of its keys.
--   TextOrder   the order of text, as `Ord` of `String` has it.
--   Extremes    the outermost edges of several rectangles.
--   Stamp       crates/is-core/src/stamp.rs: stamps, their order and last-writer-wins registers.
--   Geometry    `Point` and `Rect` of crates/is-core/src/model.rs.
--   Model       the rest of crates/is-core/src/model.rs. Edits: `create`, `tick` and the four edits.
--               Sync: `apply`, `merge`, `merge_slot`. Query: what is read from a document.
--   Layout      crates/is-core/src/layout.rs: `resolve_cursor` and `fallback_owner`.
--   Sharing     crates/is-agent/src/sharing.rs and crates/is-core/src/input.rs: the router. In Loop one
--               iteration of the `select!` loop is `turn`, the loop is `run`.
--   Store       crates/is-core/src/store.rs: the write protocol with its crashes, and in Files the
--               operations of `Store`.
--   Keys        crates/is-core/src/identity.rs: keys and secrets in their written forms.
--   Service     crates/is-net/src/service.rs: the actor. Handlers, Delivery and Dialling hold the
--               handlers of the messages, and Loop is `Actor::run`. Handle is what others hold of a service:
--               `Service` and its methods, its `Config`, and `bind_transport`.
--   Wire        crates/is-net/src/wire.rs: the messages, and the frames they travel in.
--   Crypto      crates/is-net/src/crypto.rs: the handshake, and sealing and opening with counters.
--   Session     crates/is-net/src/session.rs: one connection, `run`, and the tasks around it,
--               `spawn_dial` and `spawn_accepted`. Reports and Settled are about what the actor is told.
--   Agent       crates/is-agent/src/lib.rs. The parent holds the state and what the network asks of
--               it; Commands what changes the document, Local what does not, Events the first launch
--               and the network's events, Facts what is worked out, with
--               crates/is-input/src/displays.rs, View the snapshot for the shell, Refresher the task
--               of `go_online_on` that publishes this machine's screens, and Network the agent's calls
--               on the service. Autostart is crates/is-agent/src/autostart.rs, with a child for each
--               platform.
--   Discovery   crates/is-net/src/discovery.rs: interfaces, announcements and what the listener takes.
--   Input       crates/is-input/src/platform: Keys is mac_keys.rs, Capture the hooks of windows.rs,
--               with their thread in Thread, Screens its monitors, and Mac macos.rs, with its displays
--               in Displays, the replay in Inject and the event tap in Tap.
--   Shell       crates/is-ui/src/main.rs: what is shown, and in Commands what can be asked.
--   Cli         crates/is-cli/src/main.rs: the commands; Runs is about one after the other.
--   Examples    the theorems at concrete inputs.
-- The router asks Layout where a motion leads, and Layout reads the document of Model; the store
-- writes that document; the actor carries its updates and the router's input to the peers. A session
-- knows the agent only through the interface `Workspace` of Session, which `workspace` of Agent fills, and
-- reports to the actor what `on_session` of Service handles.
--
-- How the code is read. A method on `&mut self` is a function that returns the new state. Wall
-- clocks, monotonic times, fresh uuids and identities are arguments. Ids, keys and uuids are the
-- numbers that their bytes spell. `i32` values are integers, with saturation or wrapping written
-- out where the code computes, as in a release build; the increment of the `u64` clock wraps. A set
-- of machines is a function into the Booleans, and an unordered map has the order of its ids. What
-- the router asks of the capture hook and the agent is recorded in its state. serde_json is the
-- parameter `Codec`, of which it is used that a written value is read back; a power loss is a
-- `Fault` at one step of a write. The curves, the hash and the cipher of the handshake are the parameter
-- `Primitives` of Crypto, with the laws that the code relies on; hexadecimal text and the check of a
-- signature are the parameters `Hex` and `Ed25519` of Keys, CoreGraphics is `System` of Input.Mac, and
-- the texts of ids and addresses are `Texts` of Shell. Whether a key is admitted and
-- whether a peer's queue has room are arguments of the actor's handlers. What happens on a connection,
-- how its handshake ends, which sends fail and what arrives, is its `Connection`, and other tasks may
-- change the workspace before each arrival. The clock, the keys that are held and the answers of the
-- operating system are arguments of the agent and the hooks, and so is the arithmetic of floating-point
-- numbers where screens are measured. No definition runs on fuel: the loops go
-- through lists.
--
-- Not modelled: the calls of the operating systems, and the run loop of the tap on a Mac
-- (crates/is-input); the tasks that `Service::start` spawns around the actor
-- (crates/is-net/src/service.rs), and the sockets of discovery; the window and the tray of the desktop
-- shell; the demonstration of the command line, a fixed script in a directory of its own; log lines,
-- file permissions, locks and sockets.
pub mod BTreeMap
pub mod TextOrder
pub mod Extremes
pub mod Stamp
pub mod Geometry
pub mod Model
pub mod Layout
pub mod Sharing
pub mod Store
pub mod Service
pub mod Input
pub mod Keys
pub mod Wire
pub mod Crypto
pub mod Session
pub mod Agent
pub mod Shell
pub mod Cli
pub mod Discovery
pub mod Examples
pub mod Base
