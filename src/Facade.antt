-- ===== src/Facade.antt =====
-- The JavaScript facade, react-native/src/index.js, over the generated runtime and the
-- application, which are parameters.
pub mod Errors
pub mod Stream
pub mod Send
pub mod Session
