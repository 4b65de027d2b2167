-- ===== src/Tests.antt =====
-- The theorems at concrete values.
mod Data
mod Wire
mod Queries
mod Network
mod Caching
mod Crawling
mod Workers
mod Endings
mod Serving
mod FirstBackend
mod Threads
mod Numbers
mod Relations
mod Loops
mod Pages
mod Searching
mod Storing
