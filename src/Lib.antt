-- ===== src/Lib.antt =====
-- The core of phoc, a Wayland compositor for phones: which keys do what, which client may take a key,
-- and where windows, panels and the on-screen keyboard lie.
--
-- The parts and the files that model them:
-- * Keybindings (src/keybindings.c): Keybindings/Accel is parse_accelerator, byte by byte, and
--   Keybindings/Bindings the list of bindings with on_keybinding_setting_changed,
--   phoc_add_keybinding, phoc_keybindings_constructed and phoc_keybindings_handle_pressed.
-- * Keyboard (src/keyboard.c): Keyboard/Pressed is the arrays of pressed keysyms, Keyboard/HandleKey
--   phoc_keyboard_handle_key with all that it calls, which asks the bindings and then the shell's
--   subscriptions, and Keyboard/Layout the rotation of the layouts.
-- * PhoshPrivate (src/phosh-private.c): PhoshPrivate/State is what it keeps and sends,
--   PhoshPrivate/Accelerators the shell's subscriptions to accelerators, which use the parser of
--   Keybindings (with the keyboard events that outlive the shell's resource), and PhoshPrivate/Lifecycle the resources, startup trackers and the shell's state.
-- * LayerShell (src/layer_shell.c): LayerShell/Geometry is apply_exclusive and arrange_layer,
--   LayerShell/Arrange find_osk, change_osk and arrange_layers.
-- * View (src/view.c, and phoc_desktop_view_is_visible of src/desktop.c): View/State has the views and
--   outputs, View/Operations maximising, tiling and restoring, View/Fullscreen fullscreen and the
--   moves between outputs, View/Scale the fitting of sizes, View/Tree the parents, View/Arranging the loop of arrange_layers over the
--   views, through which LayerShell and View meet.
-- * Desktop (src/desktop.c): what is under a point of the layout, in the views of View and the layers of
--   LayerShell, and view_get_deco_part of src/view.c; Desktop/Order has it as one list from front to back.
-- * Seat (src/seat.c): Seat/State is a seat beside the desktop, Seat/Stack the first half of
--   phoc_seat_set_focus, which raises a view with its family and ends the fullscreen state of others, and
--   Seat/Focus the rest of it, with phoc_seat_cycle_focus, seat_view_destroy,
--   phoc_seat_set_focus_layer and phoc_seat_set_exclusive_client. Seat/Spec is what the focus is for
--   those who only look at it: the views in the order in which they had it.
-- * Cursor (src/cursor.c, and of src/seat.c the compositor's grabs): Cursor begins and ends the moving
--   and resizing of a view, Cursor/Motion is phoc_cursor_update_position, which does it through the
--   operations of View.
-- * XdgShell (src/xdg_shell.c): limits of sizes, a move and resize that waits for the client, commits, and
--   the client's requests; View/Scale has view_update_size and view_update_scale of src/view.c.
-- * TextInput (src/text_input.c): the relay between the text inputs of the clients and the input method of
--   a seat. TextInput/Moves and TextInput/Steps follow it over any sequence of its handlers.
-- * Input (src/input.c, and of src/seat.c what it needs): the list of seats and the searches in it.
-- Prelude has the names that all of them share, Prelude/Int the integers over the native numbers.
-- The Tests module of each part has concrete runs.
--
-- State is passed explicitly. What is sent to clients, to the shell or to wlroots is a list of values
-- in the order of the calls. Numbers of type uint32_t wrap around where the code adds; an `int`
-- coordinate is an integer without overflow. Floating-point numbers are a parameter with their
-- operations; View/Exact has what is asked of them by the theorems that need it: sums of integers
-- without loss. What wlroots, GLib and libxkbcommon answer is a
-- parameter too: the keysym of a name, the masks of modifiers, the output for a view.
--
-- Fuel: the parser's loop has one more than the bytes of the text, and each round eats a byte. A walk
-- up the parents of a view, and the raising of a view with its family, have as much fuel as the
-- families are high. phoc_seat_set_focus_layer has as much as it may call itself through arrange_layers:
-- once with one output, while with two it may be without end (Seat/Arranged).
-- Everything else is structural recursion.
--
-- Not modelled: input devices, tablets and drags of src/seat.c, touch and buttons of
-- src/cursor.c, drawing, the settings file, the other shells, and the start of the
-- compositor; thumbnails of src/phosh-private.c, popups and subsurfaces of src/layer_shell.c and
-- src/xdg_shell.c, damage of src/view.c. Where the seat calls arrange_layers, Seat/Focus
-- has its end, which gives that seat the topmost layer surface of the output (a parameter there, which does not
-- change meanwhile) or takes the focus of layer surfaces away; that it arranges is in the list of notices, and the
-- other seats' turn is left out, as is what the cursor finds under it. The parser of ini files (src/ini.c)
-- is a copy of another project.
pub mod Cursor
pub mod Desktop
pub mod Input
pub mod Keybindings
pub mod Keyboard
pub mod LayerShell
pub mod PhoshPrivate
pub mod Prelude
pub mod Seat
pub mod TextInput
pub mod View
pub mod XdgShell
