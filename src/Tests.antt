-- ===== src/Tests.antt =====
-- Runs of the model on concrete inputs, and the theorems applied to such inputs.
mod Chunked
mod Parser
mod Connection
mod Response
mod RequestBody
mod Request
mod Error
mod Writer
mod Completion
mod Notification
mod Registry
mod Config
mod Reader
mod Recycle
mod Event
mod Net
mod Runtime
mod Jni
mod Bridge
