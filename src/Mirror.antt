-- ===== src/Mirror.antt =====
-- What a server tells of its picture and what a client keeps of it: `populateImageReply` of
-- server/rtimvServerThread.cpp and `ImageReceived` of server/rtimvClientBase.cpp, after the choice of
-- the reply. The JPEG data, and the values that wait to be sent, are left out.
pub mod Codes
pub mod Message
pub mod Reception
pub mod Agreement
pub mod Statistics
mod Tests
