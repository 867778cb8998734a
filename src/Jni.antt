-- ===== src/Jni.antt =====
-- The bridge to the Java side, c/jni: the calls that Java makes, the calls that are made of it, and
-- the thread that runs the Java VM.
pub mod Bridge
pub mod Calls
pub mod Env
pub mod Poll
pub mod Runtime
pub mod Setup
pub mod Worker
