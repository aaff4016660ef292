-- ===== src/Lib.antt =====
-- ICPC Controller: the broadcast display page and the administrators' web frontend.
--
-- The program runs programming contests in rooms of machines. A server in Go (internal/, cmd/)
-- keeps devices, commands and broadcast pages; two programs in the browser are modelled here.
--
-- Display models internal/server/web/broadcast/display.js, the page that the machines show. It
-- connects to the server by a WebSocket, falls back to polling, and shows the pages of a broadcast
-- in turns that all machines agree on.
--   Display.Item     renderItem, renderScrollingNotice, scaleFont: the elements of a page
--   Display.Page     the views of pages and the timing of their data
--   Display.State    the variables of the page, grouped by their use
--   Display.Time     serverNow, calcSyncedPageIndex, calcNextSwitchMs
--   Display.Screen   the container: renderCurrentPage, showEmpty, scheduleNext, removal timers
--   Display.Font     loadFont as its request and its two answers
--   Display.Clock    initGlobalClock, updateAllCountdownEls, pad
--   Display.Keys     blockKeys
--   Display.Player   init, connectWS and its callbacks, handleWSMessage, pollPagesHTTP,
--                    fetchCountdown, the carousel timer; Display.Player.Steps has the runs
--   Display.Host     what the page takes from the browser: parsed dates, floats and JSON
-- The handlers are functions on one state. A run (Reach) is any sequence of the events that the
-- browser may deliver in that state: sockets that open, close and get messages, timers that run
-- out, and answers to requests, in any order. The clock and the keyboard lock are functions of
-- their own beside the runs.
--
-- Admin models parts of frontend/src, the pages of the administrators.
--   Admin.Fleet      lib/utils.ts deviceKey; state.tsx toggleFleet, selectFleet;
--                    components/fleet.tsx useFleetDevices, FleetTable's filters, queueFleet
--   Admin.Export     pages/devices.tsx exportFleet
--   Admin.Commands   pages/commands.tsx RoomCommands: targets, run and its answers, events, rows;
--                    Admin.Commands.Steps has the runs
--   Admin.Socket     state.tsx: the effect that holds the socket for events, and onAdmin
--   Admin.Pages      pages/broadcast.tsx load, move, publish, localPush
--   Admin.Actions    pages/network.tsx save, act; pages/power.tsx wake, powerCommand, schedules;
--                    pages/distribute.tsx the start of a distribution; pages/commands.tsx
--                    CloudCommands
--   Admin.Routes     lib/utils.ts parsePage, roomFromPath; lib/api.ts resolve
--   Admin.Address    state.tsx go, setRoom, the listeners of the address; the buttons that enter a
--                    room in pages/devices.tsx, rooms.tsx and checkin.tsx
--   Admin.Rooms      lib/api.ts setApiRoom; state.tsx useDevices and the effect that sets the room
--                    of requests: the effects of a page run before those of AppProvider
--   Admin.Messages   state.tsx socket.onmessage and its listeners
--   Admin.Network    pages/network.tsx: the rules that are edited and saved
--   Admin.Login      pages/login.tsx: the form, with the ends of api
--   Admin.Picker     components/targets.tsx TargetPicker
--   Admin.Screen     pages/screen.tsx streamURL, Frame; components/terminal-dialog.tsx its address
--   Admin.Menu       components/shell.tsx NAV and its menu; lib/utils.ts PAGE_TITLE
--   Admin.Notices    state.tsx toast, confirm and its dialog
--   Admin.Overview   the sums of pages/dashboard.tsx, checkin.tsx and state.tsx; the latest
--                    commands of dashboard.tsx and pages/commands.tsx
--   Admin.Checkin    pages/checkin.tsx: its forms and buttons, exportCheckin
--   Admin.Stage      pages/broadcast.tsx CanvasItem, clamp and the commit of a box
--   Admin.Editor     pages/broadcast.tsx: the page and the item that are selected, load, and the
--                    draft of Inspector
--   Admin.Distribution  pages/distribute.tsx: the files, loadTask and the effect that polls
--   Admin.Settings   pages/settings.tsx: the deployment with its token, presets, prefix, password
--   Admin.App        state.tsx AppProvider with all of its parts; App.tsx Router
--   Admin.Devices    pages/devices.tsx: open and its answers, the buttons; Admin.Devices.Table has
--                    the search and the rows, with lib/utils.ts parseIP
--   Admin.Shell      components/shell.tsx: the theme (with index.html), the menu of a small screen,
--                    logout, the head
--   Admin.Inspector, Admin.Config  pages/broadcast.tsx: what the inspector and the configuration
--                    send, label, toColor, toLocal, pickImage
--   Admin.Tables     the tables of all pages as their cells; its children are named for the pages
--   Admin.Search     the search of devices.tsx, fleet.tsx and targets.tsx
--   Admin.Sizes      lib/utils.ts formatBytes
--   Admin.Stats      state.tsx: the effects of the status, the rooms and the statistics
--   Admin.History    pages/commands.tsx: the history of a room, and the end of a command, over
--                    changes of the room
--   Admin.Snapshots  components/snapshots.tsx
--   Admin.Terminal   components/terminal-dialog.tsx: terminals and sockets of the effect
--   Admin.Asked      requests by room and number whose answers may overtake one another, for
--                    Admin.Devices and Admin.Snapshots
--   Admin.Api        lib/api.ts api, from a response on
--   Admin.Labels     lib/utils.ts checkinLabel, statusLabel, timeAgo; components/ui.tsx statusTone
-- React's setters are the fields of a state; a handler is cut at its requests, and what follows
-- an answer is a function of its own. Effects of React are functions behind the handlers
-- (Admin.Editor.draw, Admin.Distribution.watch), run where what they depend on has changed; a
-- handler of a rendering takes what its closure reads as an argument where that may be old
-- (Admin.Address). Pages meet through the fleet, a list of keys. A page stays over a change of the
-- room, and its effects run before the one that tells lib/api.ts of the new room: requests carry the
-- room that they go to where that matters (Admin.Rooms, Admin.Devices, Admin.Snapshots,
-- Admin.History).
--
-- Prelude has what both share: Boolean tests, lists, integers over the native numbers, texts as
-- code points with the decimal notation, sets and maps, stable sorting, and encodeURIComponent
-- with decodeURIComponent (Prelude.Uri), by UTF-8 on code points.
--
-- Numbers: milliseconds, indices and durations are signed whole numbers without a bound, which
-- JavaScript's numbers represent exactly below 2 ^ 53. Percentages and font sizes are kept as the
-- text that is parsed. Decimal notation is written on fuel, one more than the number, which is
-- enough since each digit divides by ten. All other loops are structural.
--
-- Left to parameters: dates, parseFloat and JSON.parse (Display.Host, Admin.Api.Json,
-- Admin.Devices.Table.Browser), Number of a text (Admin.Fleet.queue_fleet, Admin.Checkin,
-- Admin.Inspector, where what is sent is as JSON writes it), the times of dates (Admin.Overview,
-- Admin.Labels, Admin.Config), JavaScript's numbers with what IEEE 754 says of their order
-- (Admin.Stage.Floats), toLowerCase and toFixed (Admin.Devices.Table.Browser), the logarithm of a
-- size (Admin.Sizes).
--
-- Objects that serve as maps are lists of their entries in the order of insertion; the order in
-- which JavaScript lists keys that are written as numbers is not modelled, and no theorem rests on
-- it.
--
-- Not modelled: the Go programs; markup and styles; requests for the full screen; the view of the
-- rooms, whose buttons are with Admin.Address and Admin.Stats; the forms of settings.tsx whose one
-- button sends what was typed; the bundled assets, which are generated from frontend/.
pub mod Prelude
pub mod Display
pub mod Admin
