-- ===== src/Session.antt =====
-- core/cat/looking_glass/stray_cat.py and what it stands on: the messages, the working memory, the
-- connections of the users.
pub mod WorkingMemory
pub mod StrayCat
pub mod Turn
pub mod Unparsable
pub mod Window
pub mod Classify
pub mod Messages
pub mod Websockets
mod Tests
