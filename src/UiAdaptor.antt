-- ===== src/UiAdaptor.antt =====
-- ioppytest/ui_adaptor: the translation between the messages of the testing tool and those of the
-- users' interface, their routing to users, and the set-up of a session.
pub mod Messages
pub mod Pending
pub mod Routing
pub mod Exchange
pub mod Loop
pub mod Translator
pub mod Truncate
pub mod Startup
pub mod Vpn
pub mod Session
pub mod Trees
pub mod Reports
pub mod Packets
pub mod Displays
pub mod Notices
